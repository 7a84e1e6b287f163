-- ===== src/Ftps.antt =====
-- ftps.c: the loops of `main` that ask for bytes and take them. Between the programs stands a stream
-- of bytes; one call of `RECV` gets what the daemon has at hand, and no more than was asked for.
-- Setup has the socket and the requests, Main the whole of `main` with them, the folder and the file;
-- printing is left out.
pub mod Transfer
pub mod Setup
pub mod Main
mod Tests
use project.Base.{
  ℕ, zero, suc, ◌+◌, ◌-◌, ◌^◌, Bool, true, false, Option, none, some, List, [], ◌∷◌, ◌++◌, ltb,
  ◌==◌, length, take, drop, min, if◌then◌else◌,
}
use project.Words.{read_be32}

-- The loop that reads the header; `at_hand` has, for each request in turn, how many bytes the daemon
-- has. `none` where the answers end and the loop still waits.
pub read_header : List ℕ → ℕ → List ℕ → List ℕ → Option (List ℕ × List ℕ × List ℕ)
read_header at_hand zero databufin stream = some (databufin, stream, at_hand)
read_header [] (suc request_size) databufin stream = none
read_header (n ∷ at_hand) (suc request_size) databufin stream =
    let got = take (min n (suc request_size)) stream in
    read_header at_hand (suc request_size - length got) (databufin ++ got)
      (drop (min n (suc request_size)) stream)

-- The loop that writes the file, from the bytes written so far.
pub write_file : List ℕ → ℕ → List ℕ → List ℕ → Option (List ℕ)
write_file [] filesize written stream = if ltb (length written) filesize then none else some written
write_file (n ∷ at_hand) filesize written stream =
    let got = take (min n 25) stream in
    let rest = write_file at_hand filesize (written ++ got) (drop (min n 25) stream) in
    if ltb (length written) filesize then rest else some written

-- The part of `main` behind the header; `filesize` is an `int`, and a length that is negative as one
-- ends the loop at once.
pub receive_body : List ℕ → List ℕ → List ℕ → Option (List ℕ × List ℕ)
receive_body databufin stream at_hand =
    let filesize = read_be32 databufin 0 in
    if ltb filesize (2 ^ 31)
    then elim (write_file at_hand filesize [] stream) [
      | none ↦ none
      | some written ↦ some (drop 4 databufin, written)
    ]
    else some (drop 4 databufin, [])

-- `main`: the name, as the twenty bytes of the header, and what is written.
pub receive_file : List ℕ → List ℕ → Option (List ℕ × List ℕ)
receive_file at_hand stream = elim (read_header at_hand 24 [] stream) [
  | none ↦ none
  | some (databufin, stream', at_hand') ↦ receive_body databufin stream' at_hand'
]
