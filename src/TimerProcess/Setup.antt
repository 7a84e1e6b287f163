-- ===== src/TimerProcess/Setup.antt =====
-- timerprocess.c: the socket of `main`.
use project.Base.{ℕ, some}
use project.TcpApi.{
  Kernel, Api, inet, local_host, socket, bind, set_send_address, must_open, must_bind,
}
use project.Outcome.{Outcome, ok, ◌>>=◌}

-- The beginning of `main`; all notices go to the address that it sets at the end.
unfoldable pub open_socket : Kernel → Api → Outcome (ℕ × Api)
open_socket k a = must_open (socket k a) >>= λ s.
    must_bind (bind k (some s.0) (inet 3132 local_host) s.1) >>= λ a2.
    ok (s.0, set_send_address (inet 6520 local_host) a2)
