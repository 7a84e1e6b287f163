-- ===== src/Sender/Taken.antt =====
-- Which numbers stand in the slots of cbuffer.c.
use project.Base.{
  ℕ, zero, suc, ◌≡◌, ◌⊎◌, inl, inr, refl, sym, ap, ◌∙◌, subst, true, false, some, List, [], ◌∷◌,
  ◌++◌, arith, set, get_elem?, ◌==◌, Bool-cases, Option-cases,
}
use project.Sender.{RttPack, free_slot, slot_of, switch_off}

-- The number stands in a slot that is in use.
abbrev pub On : ℕ → List RttPack → Type 0
On k [] = ⊥
On k (p ∷ ps) = ((p.bsn ≡ k) × (p.on ≡ true)) ⊎ On k ps

-- The search for a number comes to a slot.
abbrev pub InSlot : ℕ → List RttPack → Type 0
InSlot k ps = (i : ℕ) × (p : RttPack) × (slot_of k ps ≡ some i) × (get_elem? ps i ≡ some p)

-- A slot that is free is filled.
filled :
    (ps : List RttPack) (i : ℕ) (p' : RttPack)
    → free_slot ps ≡ some i
    → p'.on ≡ true
    → On p'.bsn (set ps i p') × ((k : ℕ) → On k ps → On k (set ps i p'))
unfolding free_slot
filled [] i p' e on = cc
filled (p ∷ ps) i p' e on = elim (Bool-cases p.on) [
  | inl used ↦ elim (Option-cases (free_slot ps)) [
    | inl full ↦ cc (rw (used, full) at e)
    | inr (j, found) ↦
        let at : i ≡ suc j = cc (rw (used, found) at e) in
        let (new, old) = filled ps j p' found on in
        subst
          (λ (m : ℕ).
            On p'.bsn (set (p ∷ ps) m p') × ((k : ℕ) → On k (p ∷ ps) → On k (set (p ∷ ps) m p')))
          (sym at) (inr new, λ k o. elim o [ inl here ↦ inl here | inr later ↦ inr (old k later) ])
  ]
  | inr unused ↦
      let at : i ≡ 0 = cc (rw unused at e) in
      subst
        (λ (m : ℕ).
          On p'.bsn (set (p ∷ ps) m p') × ((k : ℕ) → On k (p ∷ ps) → On k (set (p ∷ ps) m p')))
        (sym at) (inl (refl, on), λ k o. elim o [ inl here ↦ cc | inr later ↦ inr later ])
]

pub set-On :
    (ps : List RttPack) (i : ℕ) (p' : RttPack)
    → free_slot ps ≡ some i
    → p'.on ≡ true
    → (k : ℕ) → On k ps
    → On k (set ps i p')
set-On ps i p' e on k o = (filled ps i p' e on).1 k o

pub set-On_new :
    (ps : List RttPack) (i : ℕ) (p' : RttPack)
    → free_slot ps ≡ some i
    → p'.on ≡ true
    → On p'.bsn (set ps i p')
set-On_new ps i p' e on = (filled ps i p' e on).0

pub On-InSlot : (k : ℕ) (ps : List RttPack) → On k ps → InSlot k ps
unfolding slot_of
On-InSlot k [] o = elim o [ ]
On-InSlot k (p ∷ ps) o = elim (Bool-cases (p.bsn == k)) [
  | inl found ↦ (0, p, rw found refl, refl)
  | inr other ↦ elim o [
    | inl here ↦ absurd (ground (arith, here.0, other))
    | inr later ↦ let (i, q, e, f) = On-InSlot k ps later in (suc i, q, rw (other, e) refl, f)
  ]
]

pub On-split :
    (k : ℕ) (ps : List RttPack)
    → On k ps
    → (before : List RttPack) × (p : RttPack) × (after : List RttPack) × (ps
        ≡ before ++ (p ∷ after))
      × (p.bsn ≡ k)
On-split k [] o = absurd o
On-split k (x ∷ ps) o = elim o [
  | inl here ↦ ([], x, ps, refl, here.0)
  | inr later ↦
      let (before, p, after, e, is) = On-split k ps later in
      (x ∷ before, p, after, ap (λ (l : List RttPack). x ∷ l) e, is)
]

slot_of-switch_off : (k j : ℕ) (ps : List RttPack) → slot_of k (switch_off j ps) ≡ slot_of k ps
unfolding slot_of switch_off
slot_of-switch_off k j [] = refl
slot_of-switch_off k zero (p ∷ ps) = refl
slot_of-switch_off k (suc j) (p ∷ ps) = rw (slot_of-switch_off k j ps) refl

switch_off-some :
    (i j : ℕ) (ps : List RttPack) (p : RttPack)
    → get_elem? ps i ≡ some p
    → (q : RttPack) × (get_elem? (switch_off j ps) i ≡ some q)
unfolding switch_off
switch_off-some i j [] p e = cc
switch_off-some zero zero (x ∷ ps) p e = (record x { on = false }, refl)
switch_off-some (suc i) zero (x ∷ ps) p e = (p, e)
switch_off-some zero (suc j) (x ∷ ps) p e = (x, refl)
switch_off-some (suc i) (suc j) (x ∷ ps) p e = switch_off-some i j ps p e

pub switch_off-InSlot : (k j : ℕ) (ps : List RttPack) → InSlot k ps → InSlot k (switch_off j ps)
switch_off-InSlot k j ps (i, p, e, f) =
    let (q, g) = switch_off-some i j ps p f in (i, q, slot_of-switch_off k j ps ∙ e, g)
