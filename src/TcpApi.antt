-- ===== src/TcpApi.antt =====
-- tcpapi.c: the sockets' calls with the address that they share, and the addresses themselves.
-- The kernel is a parameter: whether a call of `socket`, `bind` or `sendto` succeeds. `RECV` only
-- hands on what has come; `ACCEPT` and `CONNECT` do nothing.
pub mod Calls
use project.Base.{
  ℕ, ◌+◌, ◌/◌, ◌%◌, ◌^◌, Bool, true, false, Option, none, some, List, [], ◌∷◌, ◌++◌, replicate,
  if◌then◌else◌,
}
use project.Outcome.{Outcome, ok, exited}

-- A `struct sockaddr_in` in memory: the family in the host's order, the port in network order, the
-- address and `sin_zero`.
abbrev pub inet : ℕ → List ℕ → List ℕ
inet port ip = 2 ∷ (0 ∷ ((port / 2 ^ 8 % 256) ∷ ((port % 256) ∷ (ip ++ replicate 8 0))))

-- `inet_addr("127.0.0.1")` and `INADDR_ANY`
abbrev pub local_host : List ℕ
local_host = 127 ∷ 0 ∷ 0 ∷ 1 ∷ []

abbrev pub any_address : List ℕ
any_address = 0 ∷ 0 ∷ 0 ∷ 0 ∷ []

-- The descriptor that the call of `socket` after so many gives, `none` for -1; whether a descriptor
-- can be bound; whether the `sendto` after so many fails.
pub record Kernel : Type 0 where
  pub socket : ℕ → Option ℕ
  pub bind : ℕ → List ℕ → Bool
  pub refused : ℕ → Bool

-- `dest_addr`, the calls made, what is bound, and what was sent from which descriptor and where to.
pub record Api : Type 0 where
  pub dest_addr : List ℕ
  pub opened : ℕ
  pub bound : List (ℕ × List ℕ)
  pub sends : ℕ
  pub outbox : List (Option ℕ × List ℕ × List ℕ)

-- The globals at the start of a program.
abbrev pub unused : Api
unused = record { dest_addr = replicate 16 0; opened = 0; bound = []; sends = 0; outbox = [] }

-- `SOCKET`
unfoldable pub socket : Kernel → Api → Option ℕ × Api
socket k a = (k.socket a.opened, record a { opened = a.opened + 1 })

-- `BIND`, which sets `dest_addr` as well; -1 cannot be bound.
unfoldable pub bind : Kernel → Option ℕ → List ℕ → Api → Bool × Api
bind k none addr a = (false, record a { dest_addr = addr })
bind k (some fd) addr a =
    if k.bind fd addr
    then (true, record a { dest_addr = addr; bound = a.bound ++ ((fd, addr) ∷ []) })
    else (false, record a { dest_addr = addr })

-- `setSendAddress`
unfoldable pub set_send_address : List ℕ → Api → Api
set_send_address dest a = record a { dest_addr = dest }

-- `SEND`; the flag says that `sendto` failed.
unfoldable pub send : Kernel → Option ℕ → List ℕ → Api → Bool × Api
send k fd bytes a =
    let a' = record a { sends = a.sends + 1 } in
    if k.refused a.sends
    then (true, a')
    else (false, record a' { outbox = a.outbox ++ ((fd, a.dest_addr, bytes) ∷ []) })

-- The tests of the programs: a descriptor that is -1, a call that is not 0.
abbrev pub must_open : Option ℕ × Api → Outcome (ℕ × Api)
must_open (none, a) = exited
must_open (some fd, a) = ok (fd, a)

abbrev pub must_bind : Bool × Api → Outcome Api
must_bind (true, a) = ok a
must_bind (false, a) = exited

abbrev pub must_send : Bool × Api → Outcome Api
must_send (true, a) = exited
must_send (false, a) = ok a
