-- ===== src/TimerProcess/Requests.antt =====
-- The requests of cbuffer.c, as timerprocess.c takes them.
use project.Base.{ℕ, ◌/◌, ◌^◌, ◌<◌, ◌≡◌, ap, ap₂, Bool, List, arith, length}
use project.Int.{pos}
use project.Words.{read_be32}
use project.TimerClient.{starttimer, canceltimer}
use project.Outcome.{ok}
use project.TimerProcess.{ListNode, Unknown, insert_value, remove_value, serve, serve_all, receive}

pub receive-starttimer :
    (u : Unknown) (ms bsn : ℕ) (nodes : List ListNode)
    → bsn < 2 ^ 32
    → ms / 1000 < 2 ^ 32
    → receive u (starttimer ms bsn) nodes ≡ ok (insert_value (u.inserting 0) (pos ms) 0 bsn nodes)
unfolding receive serve_all serve read_be32 starttimer
receive-starttimer u ms bsn nodes h k =
    ap₂ (λ (m b : ℕ). ok (insert_value (u.inserting 0) (pos m) 0 b nodes)) (omega arith)
      (omega arith)

-- A request to cancel removes the timer of its 32-bit number, whatever the eight bytes behind it
-- are, if the bytes that are written behind `temp` change nothing.
pub receive-canceltimer :
    (u : Unknown) (bsn : ℕ) (past : List ℕ) (nodes : List ListNode)
    → bsn < 2 ^ 32
    → length past ≡ 8
    → ((o : Bool × List ListNode) → u.overrun 0 o ≡ ok o)
    → receive u (canceltimer past bsn) nodes ≡ ok ((remove_value bsn nodes).1)
unfolding receive serve_all serve read_be32 canceltimer
receive-canceltimer u bsn past nodes h e harmless =
    rw one (rw harmless (ap (λ (b : ℕ). ok ((remove_value b nodes).1)) (omega arith)))
  where
    one : length (canceltimer past bsn) / 16 ≡ 1
    one = omega (arith, e)
