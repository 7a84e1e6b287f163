-- ===== src/CBuffer/Chain.antt =====
-- The packet list of cbuffer.c: consecutive stretches of the buffer with consecutive numbers.
use project.Base.{ℕ, ◌+◌, ◌%◌, ◌≤◌, ◌≡◌, ◌≢◌, ◌∙◌, List, [], ◌∷◌, ◌++◌, arith, length}
use project.CBuffer.{PackNode}

-- `s` is the position that the first packet starts at (round 64000), `q` its number.
abbrev pub Chain : ℕ → ℕ → List PackNode → Type 0
Chain s q [] = Unit
Chain s q (n ∷ r) =
    (n.dat ≡ s % 64000)
    × (1 ≤ n.size)
    × (n.size ≤ 1000)
    × (n.seqnum ≡ q)
    × Chain (s + n.size) (q + 1) r

-- The bytes that the packets cover.
abbrev pub total : List PackNode → ℕ
total [] = 0
total (n ∷ r) = n.size + total r

-- The first packet still waits for its acknowledgement.
abbrev pub HeadWaits : List PackNode → Type 0
HeadWaits [] = Unit
HeadWaits (n ∷ r) = n.ack ≢ 2

pub Chain-eq :
    (s s' q q' : ℕ) (ns : List PackNode)
    → s % 64000 ≡ s' % 64000
    → q ≡ q'
    → Chain s q ns
    → Chain s' q' ns
Chain-eq s s' q q' [] e f c = tt
Chain-eq s s' q q' (n ∷ r) e f c = (
  c.0 ∙ e,
  c.1,
  c.2,
  c.3 ∙ f,
  Chain-eq (s + n.size) (s' + n.size) (q + 1) (q' + 1) r (omega arith) (omega arith) c.4,
)

pub Chain-append :
    (s q : ℕ) (xs ys : List PackNode)
    → Chain s q xs
    → Chain (s + total xs) (q + length xs) ys
    → Chain s q (xs ++ ys)
Chain-append s q [] ys c d = Chain-eq _ _ _ _ ys (omega arith) (omega arith) d
Chain-append s q (x ∷ xs) ys c d = (
  c.0,
  c.1,
  c.2,
  c.3,
  Chain-append (s + x.size) (q + 1) xs ys c.4 (Chain-eq _ _ _ _ ys (omega arith) (omega arith) d),
)

pub total-append : (xs ys : List PackNode) → total (xs ++ ys) ≡ total xs + total ys
total-append [] ys = omega arith
total-append (x ∷ xs) ys = omega (arith, total-append xs ys)
