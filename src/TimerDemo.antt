-- ===== src/TimerDemo.antt =====
-- timerDEMO.c: a client of the timer process that starts three timers and prints what ends. Its three
-- requests have the bytes of those in cbuffer.c; they go to the address that `createConnection` sets.
mod Tests
use project.Base.{ℕ, Bool, true, false, Option, none, some, List, [], ◌∷◌, map}
use project.Words.{read_be32}
use project.TcpApi.{
  Kernel, Api, inet, local_host, unused, socket, bind, set_send_address, send, must_open, must_bind,
}
use project.Outcome.{Outcome, ok, exited, ◌>>=◌}
use project.TimerClient

-- `createConnection`
pub create_connection : Kernel → Api → Outcome (ℕ × Api)
create_connection k a = must_open (socket k a) >>= λ s.
    must_bind (bind k (some s.0) (inet 6520 local_host) s.1) >>= λ a2.
    ok (s.0, set_send_address (inet 3132 local_host) a2)

-- `starttimer`, `canceltimer` and `timerquit`; whether `SEND` fails is not looked at.
pub start_timer : Kernel → ℕ → ℕ → ℕ → Api → Api
start_timer k fd ms byte_seq_num a = (send k (some fd) (TimerClient.starttimer ms byte_seq_num) a).1

pub cancel_timer : Kernel → ℕ → List ℕ → ℕ → Api → Api
cancel_timer k fd past byte_seq_num a =
    (send k (some fd) (TimerClient.canceltimer past byte_seq_num) a).1

pub quit_timer : Kernel → ℕ → List ℕ → Api → Api
quit_timer k fd past a = (send k (some fd) (TimerClient.timerquit past) a).1

-- `main` up to its loop.
pub main : Kernel → Outcome Api
main k = create_connection k unused >>= λ o.
    ok (start_timer k o.0 30000 3 (start_timer k o.0 10050 2 (start_timer k o.0 20320 1 o.1)))

-- What the loop prints for the notices that come in.
pub expired : List (List ℕ) → List ℕ
expired notices = map (λ (notice : List ℕ). read_be32 notice 0) notices
