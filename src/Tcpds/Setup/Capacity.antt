-- ===== src/Tcpds/Setup/Capacity.antt =====
-- The capacity of the buffer of sbuffer.c over the rounds of tcpds.c.
use project.Base.{ℕ, ◌+◌, ◌≡◌, refl, Bool, List}
use project.Int.{pos, ◌+ℤ◌}
use project.TcpApi.{Kernel}
use project.Outcome.{ok, Leaves, Leaves-ok}
use project.SBuffer
use project.SBuffer.{SBuffer, Run, returns, endless, faults, unfinished, initialize}
use project.SBuffer.Capacity.{total, Reach, start, added, read, part_of, Reach-total}
use project.Tcpds.{Daemon}
use project.Tcpds.Store.{outcome, sbuffer}
use project.Tcpds.Setup.{Arrivals, main}
use project.Tcpds.Setup.Keeps.{main-Kept}

-- Some bytes are lost, and what the calls of `addData` and `requestData` lead to is here.
abbrev Counted : SBuffer → Type 0
Counted b = (lost : ℕ) × Reach lost b

add_data-Counted :
    (number size : ℕ) (bytes : List ℕ) (b : SBuffer)
    → Counted b
    → Leaves (λ (o : ℕ × SBuffer). Counted o.1) (sbuffer.add_data number size bytes b)
add_data-Counted number size bytes b (lost, r) = by_run (SBuffer.add_data number size bytes b) refl
  where
    by_run :
        (m : Run (ℕ × SBuffer))
        → SBuffer.add_data number size bytes b ≡ m
        → Leaves (λ (o : ℕ × SBuffer). Counted o.1) (outcome m)
    by_run (returns (result, b')) e = (lost, added r number size bytes result e)
    by_run endless e = tt
    by_run faults e = tt
    by_run unfinished e = tt

request_data-Counted :
    (size : ℕ) (b : SBuffer)
    → Counted b
    → Leaves (λ (o : List ℕ × SBuffer). Counted o.1) (sbuffer.request_data size b)
request_data-Counted size b (lost, r) = by_run (SBuffer.request_data size b) refl
  where
    by_run :
        (m : Run (List ℕ × SBuffer))
        → SBuffer.request_data size b ≡ m
        → Leaves (λ (o : List ℕ × SBuffer). Counted o.1) (outcome m)
    by_run (returns (bytes, b')) e = (lost + part_of size b, read r size bytes e)
    by_run endless e = tt
    by_run faults e = tt
    by_run unfinished e = tt

-- After any rounds of tcpds on a buffer as `initialize` makes it, with whatever requests and
-- datagrams, the nodes of the buffer stand for 64000 bytes or, after reads that emptied no node, for
-- less: the number that is missing is one that such reads have taken.
pub main-capacity :
    (refused : ℕ → Bool) (k : Kernel) (args : ℕ) (ip : List ℕ) (is : List Arrivals)
    (d : Daemon SBuffer)
    → main sbuffer refused k args ip initialize is ≡ ok d
    → (lost : ℕ) × Reach lost d.store × (total d.store.ring +ℤ pos lost ≡ pos 64000)
main-capacity refused k args ip is d e =
    let (lost, r) =
      Leaves-ok (λ (d' : Daemon SBuffer). Counted d'.store) _ d e
        (main-Kept sbuffer refused Counted add_data-Counted request_data-Counted k args ip
          initialize is (0, start)) in
    (lost, r, Reach-total r)
