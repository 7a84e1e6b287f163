-- ===== src/SBuffer/Deliver.antt =====
-- Any packets handed to `addData` of sbuffer.c in the first window.
use project.Base.{
  ℕ, ◌≤◌, ◌≡◌, inl, inr, refl, sym, ap, ◌∙◌, Bool, true, false, List, [], ◌∷◌, length, ◌==◌, ==_iff,
  if◌then◌else◌, All, Option-cases, Option, some, none, take,
}
use project.SBuffer.{SBuffer, Run, returns, ◌>>=◌, add_data}
use project.SBuffer.Window.{IsWindow, received, add_data-received, add_data_again}

-- Packets with their numbers, handed to `addData` one after the other.
unfoldable pub deliver : List (ℕ × List ℕ) → SBuffer → Run SBuffer
deliver [] b = returns b
deliver ((q, bytes) ∷ r) b = add_data q 1000 bytes b >>= λ o. deliver r o.1

-- The first of them with a number.
unfoldable pub first_of : List (ℕ × List ℕ) → ℕ → Option (List ℕ)
first_of [] k = none
first_of ((q, bytes) ∷ r) k = if k == q then some (take 1000 bytes) else first_of r k

abbrev pub or_else : Option (List ℕ) → Option (List ℕ) → Option (List ℕ)
or_else none o = o
or_else (some x) o = some x

abbrev pub IsPacket : ℕ × List ℕ → Type 0
IsPacket p = (1 ≤ p.0) × (p.0 ≤ 64) × (1000 ≤ length p.1)

or_else-none : (o : Option (List ℕ)) → or_else o none ≡ o
or_else-none none = refl
or_else-none (some x) = refl

-- A new packet comes in front of the later ones, and an old one stays.
or_else_new :
    (test : Bool) (o later : Option (List ℕ)) (x : List ℕ)
    → (test ≡ true → o ≡ none)
    → or_else (if test then some x else o) later ≡ or_else o (if test then some x else later)
or_else_new true o later x h = rw (h refl) refl
or_else_new false o later x h = refl

or_else_old :
    (test : Bool) (o later : Option (List ℕ)) (x y : List ℕ)
    → (test ≡ true → o ≡ some y)
    → or_else o later ≡ or_else o (if test then some x else later)
or_else_old true o later x y h = rw (h refl) refl
or_else_old false o later x y h = refl

-- If nothing was read yet, packets of at least 1000 bytes with numbers from 1 to 64 are delivered in
-- any order and as often as may be: no call of `addData` faults or hangs, and under each number
-- stands the packet that was there, or else the first that came with it.
pub deliver-received :
    (ps : List (ℕ × List ℕ)) (b : SBuffer)
    → IsWindow b
    → All IsPacket ps
    → (b' : SBuffer) × (deliver ps b ≡ returns b')
      × IsWindow b'
      × ((k : ℕ) → received b' k ≡ or_else (received b k) (first_of ps k))
unfolding deliver first_of
deliver-received [] b w all = (b, refl, w, λ k. sym (or_else-none (received b k)))
deliver-received ((q, bytes) ∷ ps) b w all = elim (Option-cases (received b q)) [
  | inl new ↦
      let (c, e, w', map) = add_data-received q bytes b w all.0.0 all.0.1 all.0.2 new in
      let (b', e', w'', map') = deliver-received ps c w' all.1 in
      (
        b',
        rw e e',
        w'',
        λ k.
            map' k
            ∙ ap (λ (o : Option (List ℕ)). or_else o (first_of ps k)) (map k)
            ∙ or_else_new (k == q) (received b k) (first_of ps k) (take 1000 bytes)
                (λ here. ap (received b) ((==_iff k q).0 here) ∙ new),
      )
  | inr (old, there) ↦
      let (c, e, w', map) = add_data_again q bytes b w all.0.0 all.0.1 (λ gone. cc) in
      let (b', e', w'', map') = deliver-received ps c w' all.1 in
      (
        b',
        rw e e',
        w'',
        λ k.
            map' k
            ∙ ap (λ (o : Option (List ℕ)). or_else o (first_of ps k)) (map k)
            ∙ or_else_old (k == q) (received b k) (first_of ps k) (take 1000 bytes) old
                (λ here. ap (received b) ((==_iff k q).0 here) ∙ there),
      )
]
