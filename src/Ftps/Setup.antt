-- ===== src/Ftps/Setup.antt =====
-- ftps.c: the socket of `main`, and the requests that it sends.
use project.Base.{ℕ, some}
use project.Words.{le32}
use project.TcpApi.{
  Kernel, Api, inet, local_host, any_address, socket, bind, set_send_address, send, must_open,
  must_send,
}
use project.Outcome.{Outcome, ok, ◌>>=◌}

-- The beginning of `main`; whether the socket could be bound is not looked at.
unfoldable pub open_socket : Kernel → Api → Outcome (ℕ × Api)
open_socket k a = must_open (socket k a) >>= λ s.
    let (bound, a2) = bind k (some s.0) (inet 2000 any_address) s.1 in
    ok (s.0, set_send_address (inet 5050 local_host) a2)

-- A request for bytes.
unfoldable pub request : Kernel → ℕ → ℕ → Api → Outcome Api
request k sock request_size a = must_send (send k (some sock) (le32 request_size) a)
