-- ===== src/Sender/Slots.antt =====
-- The timing slots of cbuffer.c: how many are free, and the searches over `packtimes`.
use project.Base.{
  ℕ, suc, ◌+◌, ◌<◌, ◌≡◌, refl, ap, true, none, some, List, [], ◌∷◌, ◌++◌, arith, set, length,
  get_elem?, if◌then◌else◌, Bool-cases, inl, inr,
}
use project.CBuffer.{PackNode}
use project.Sender.{RttPack, free_slot, set_ack}

-- How many slots are not in use.
abbrev pub free_count : List RttPack → ℕ
free_count [] = 0
free_count (p ∷ ps) = (if p.on then 0 else 1) + free_count ps

-- A slot is found exactly where one is free.
pub free_slot-none : (ps : List RttPack) → free_count ps ≡ 0 → free_slot ps ≡ none
unfolding free_slot
free_slot-none [] e = refl
free_slot-none (p ∷ ps) e = ground (arith, free_slot-none ps)

-- The slot that is found, with the count after it is taken.
pub record Taken (ps : List RttPack) : Type 0 where
  pub slot : ℕ
  pub found : free_slot ps ≡ some slot
  pub left : (p : RttPack) → p.on ≡ true → free_count (set ps slot p) + 1 ≡ free_count ps

Taken-cons : (p : RttPack) (ps : List RttPack) → p.on ≡ true → Taken ps → Taken (p ∷ ps)
unfolding free_slot
Taken-cons p ps on t = record {
  slot = suc t.slot;
  found = rw (on, t.found);
  left = λ p' e. omega (arith, t.left p' e);
}

pub take_slot : (ps : List RttPack) → 0 < free_count ps → Taken ps
unfolding free_slot
take_slot [] h = absurd (omega arith)
take_slot (p ∷ ps) h = elim (Bool-cases p.on) [
  | inl on ↦ Taken-cons p ps on (take_slot ps (ground arith))
  | inr off ↦ record { slot = 0; found = rw off; left = λ p' e. rw (off, e) (omega arith) }
]

-- A node of the list by its place.
pub get_elem?-middle {ℓ} :
    {A : Type ℓ} (pre post : List A) (a : A) → get_elem? (pre ++ (a ∷ post)) (length pre) ≡ some a
get_elem?-middle [] post a = refl
get_elem?-middle (x ∷ pre) post a = get_elem?-middle pre post a

pub set_ack-middle :
    (a : ℕ) (pre post : List PackNode) (n : PackNode)
    → set_ack a (length pre) (pre ++ (n ∷ post)) ≡ pre ++ (record n { ack = a } ∷ post)
unfolding set_ack
set_ack-middle a [] post n = refl
set_ack-middle a (x ∷ pre) post n = ap (λ (t : List PackNode). x ∷ t) (set_ack-middle a pre post n)
