-- ===== src/Sender/Tracks.antt =====
-- Which packets of cbuffer.c stand as acknowledged, as acknowledgements come in.
use project.Base.{
  ℕ, ◌+◌, ◌≤◌, ◌≡◌, ◌≢◌, refl, ◌⊎◌, inl, inr, Option, none, some, List, [], ◌∷◌, ◌++◌, arith, ◌==◌,
  All, Bool-cases, ==_iff,
}
use project.CBuffer.{PackNode}
use project.CBuffer.Chain.{Chain}
use project.CBuffer.Renew.{below}
use project.Sender.{acknowledge}
use project.Sender.Restamp.{blank}
use project.Sender.Expire.{numbers_above}

abbrev pub In : ℕ → List ℕ → Type 0
In k [] = ⊥
In k (x ∷ xs) = (k ≡ x) ⊎ In k xs

pub In-append_left : (k : ℕ) (xs ys : List ℕ) → In k xs → In k (xs ++ ys)
In-append_left k [] ys i = absurd i
In-append_left k (x ∷ xs) ys i = elim i [
  | inl here ↦ inl here
  | inr later ↦ inr (In-append_left k xs ys later)
]

pub In-append_right : (k : ℕ) (xs ys : List ℕ) → In k ys → In k (xs ++ ys)
In-append_right k [] ys i = i
In-append_right k (x ∷ xs) ys i = inr (In-append_right k xs ys i)

-- A packet is marked as acknowledged exactly if its number is among those that came.
abbrev pub Tracks : List ℕ → PackNode → Type 0
Tracks came n = (n.ack ≡ 2 → In n.seqnum came) × (In n.seqnum came → n.ack ≡ 2)

Tracks-other :
    (num : ℕ) (came : List ℕ) (n : PackNode)
    → n.seqnum ≢ num
    → Tracks came n
    → Tracks (num ∷ came) n
Tracks-other num came n other t =
    (λ e. inr (t.0 e), λ i. elim i [ inl e ↦ absurd (other e) | inr j ↦ t.1 j ])

Tracks-others :
    (num : ℕ) (came : List ℕ) (ns : List PackNode)
    → All (λ m. m.seqnum ≢ num) ns
    → All (Tracks came) ns
    → All (Tracks (num ∷ came)) ns
Tracks-others num came [] d t = tt
Tracks-others num came (n ∷ r) d t =
    (Tracks-other num came n d.0 t.0, Tracks-others num came r d.1 t.1)

-- What `acknowledge` makes of a list.
abbrev pub Acked : ℕ → List ℕ → List PackNode → Option (List PackNode) → Type 0
Acked num came ns none = All (Tracks (num ∷ came)) ns
Acked num came ns (some ns') = All (Tracks (num ∷ came)) ns'

Acked-cons :
    (num : ℕ) (came : List ℕ) (n : PackNode) (r : List PackNode) (o : Option (List PackNode))
    → Tracks (num ∷ came) n
    → Acked num came r o
    → Acked num came (n ∷ r) (elim o [ none ↦ none | some r' ↦ some (n ∷ r') ])
Acked-cons num came n r none t a = (t, a)
Acked-cons num came n r (some r') t a = (t, a)

pub acknowledge-Acked :
    (num s q : ℕ) (came : List ℕ) (ns : List PackNode)
    → Chain s q ns
    → All (Tracks came) ns
    → Acked num came ns (acknowledge num ns)
unfolding acknowledge
acknowledge-Acked num s q came [] c t = tt
acknowledge-Acked num s q came (n ∷ r) c t = elim (Bool-cases (n.seqnum == num)) [
  | inl found ↦
      let e = (==_iff n.seqnum num).0 found in
      rw found (
        (λ two. inl e, λ i. refl),
        Tracks-others num came r (numbers_above (s + n.size) (q + 1) num r c.4 (omega (arith, c.3)))
            t.1,
      )
  | inr other ↦ rw other (
      Acked-cons num came n r (acknowledge num r)
        (Tracks-other num came n (λ e. ground (arith, e, other)) t.0)
        (acknowledge-Acked num (s + n.size) (q + 1) came r c.4 t.1))
]

pub below-blank : (limit : ℕ) (ns : List PackNode) → below limit (blank ns) ≡ below limit ns
below-blank limit [] = refl
below-blank limit (n ∷ r) = omega (arith, below-blank limit r)

-- Where the numbers start from the limit on, no packet is below it.
pub below_of_Chain :
    (limit s q : ℕ) (ns : List PackNode) → Chain s q ns → limit ≤ q → below limit ns ≡ 0
below_of_Chain limit s q [] c h = refl
below_of_Chain limit s q (n ∷ r) c h =
    ground (arith, c.3, below_of_Chain limit (s + n.size) (q + 1) r c.4)
