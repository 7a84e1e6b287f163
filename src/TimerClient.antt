-- ===== src/TimerClient.antt =====
-- The requests that cbuffer.c sends to the timer process, and where they go.
-- A `double` time is taken in whole milliseconds, which is what a request carries.
use project.Base.{ℕ, ◌/◌, ◌%◌, List, ◌++◌}
use project.Words.{be32}
use project.TcpApi.{inet, local_host}

-- `starttimer(time, byteSeqNum)`: the flag 1, the number, the whole seconds and the milliseconds.
unfoldable pub starttimer : ℕ → ℕ → List ℕ
starttimer ms byte_seq_num = be32 1 ++ (be32 byte_seq_num ++ (be32 (ms / 1000) ++ be32 (ms % 1000)))

-- `canceltimer(byteSeqNum)`: 16 bytes are sent from a block of 8, so that `past`, the 8 bytes of
-- the heap behind the block, go out too.
unfoldable pub canceltimer : List ℕ → ℕ → List ℕ
canceltimer past byte_seq_num = be32 2 ++ (be32 byte_seq_num ++ past)

-- `timerquit()`: likewise.
unfoldable pub timerquit : List ℕ → List ℕ
timerquit past = be32 3 ++ (be32 0 ++ past)

-- `cli_addr` as `createTimerConnection` fills it.
abbrev pub timer_address : List ℕ
timer_address = inet 3132 local_host
