-- ===== src/Ftpc/Setup.antt =====
-- ftpc.c: `fileSize`, `createConnection` and `main`, with the sends of `sendFile`.
pub mod Delivery
use project.Base.{
  ℕ, zero, suc, ◌%◌, ◌^◌, Bool, true, false, Option, none, some, List, [], ◌∷◌, ltb, if◌then◌else◌,
}
use project.TcpApi.{
  Kernel, Api, inet, local_host, unused, socket, bind, set_send_address, send, must_open, must_bind,
  must_send,
}
use project.Outcome.{Outcome, ok, exited, fault, hangs, ◌>>=◌}
use project.Ftpc.{send_file}

-- `fileSize`, with the size that `stat` gives.
abbrev pub file_size : ℕ → ℕ
file_size st_size = st_size % 2 ^ 32

-- `createConnection`: the descriptors of the sending and of the receiving socket. The latter is not
-- tested, and its address is never set: it is what the stack holds, `stale`.
unfoldable pub create_connection : Kernel → List ℕ → Api → Outcome (ℕ × Option ℕ × Api)
create_connection k stale a =
    let (sockfd, a1) = socket k a in
    let (recvfd, a2) = socket k a1 in
    must_open (sockfd, a2) >>= λ s. must_bind (bind k recvfd (inet 3000 stale) a2) >>= λ a3.
    ok (s.0, recvfd, set_send_address (inet 5000 local_host) a3)

-- `RECV` on the receiving socket, to which so many answers of one byte come: it waits until there is
-- one, for ever if none comes any more. What it returns is not looked at.
pub recv : ℕ → Outcome ℕ
recv zero = hangs
recv (suc answers) = ok answers

-- The loop of `sendFile`, and the block before it, the result of whose `SEND` is not looked at; an
-- answer is waited for after each block.
pub send_blocks : Kernel → ℕ → ℕ → List (List ℕ) → Api → Outcome Api
send_blocks k fd answers [] a = ok a
send_blocks k fd answers (b ∷ bs) a =
    must_send (send k (some fd) b a) >>= λ a'. recv answers >>= λ left. send_blocks k fd left bs a'

pub send_all : Kernel → ℕ → ℕ → List (List ℕ) → Api → Outcome Api
send_all k fd answers [] a = ok a
send_all k fd answers (b ∷ bs) a =
    recv answers >>= λ left. send_blocks k fd left bs (send k (some fd) b a).1

-- `main`, with the number of answers, the name and, if it can be opened, the file. A wrong number of
-- arguments is only reported: with none, `fopen` is given a null pointer.
pub main : Kernel → List ℕ → ℕ → ℕ → List ℕ → Option (ℕ × List ℕ) → Outcome Api
main k stale answers args name file = if ltb args 2 then fault else elim file [
  | none ↦ exited
  | some (st_size, bytes) ↦ create_connection k stale unused >>= λ o.
      send_all k o.0 answers (send_file (file_size st_size) name bytes) o.2
]
