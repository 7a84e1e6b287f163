-- ===== src/SBuffer/Merge.antt =====
-- `mergeList` of sbuffer.c: it ends unless it takes in `head`, and a rule for what it keeps.
use project.Base.{
  ℕ, zero, suc, ◌+◌, ◌≤◌, ◌<◌, ◌≡◌, ◌≢◌, ◌⊎◌, inl, inr, refl, sym, ◌∙◌, subst, List, [], ◌∷◌, ◌++◌,
  append_assoc, arith, length, length-append, Bool-cases,
}
use project.SBuffer.{
  CirNode, returns, endless, unfinished, ◌>>=◌, Cursor, nodes, joins, blends, join, blend, join_all,
  blend_all, closes, advance, absorb, merge_from, triangle, merge_list,
}

-- The node and those behind it when the inner loops are through.
abbrev pub settled : ℕ → Cursor → CirNode × List CirNode
settled dstart k = blend_all dstart (join_all k.current k.behind).0 (join_all k.current k.behind).1

pub advance-nodes :
    (front : List CirNode) (c : CirNode) (r : List CirNode)
    → nodes (advance front c r) ≡ front ++ (c ∷ r)
unfolding advance
advance-nodes front c (n ∷ r) = append_assoc front (c ∷ []) (n ∷ r)
advance-nodes [] c [] = refl
advance-nodes (h ∷ t) c [] = refl

pub absorb-returns :
    (dstart : ℕ) (k k' : Cursor)
    → absorb dstart k ≡ returns k'
    → k' ≡ advance k.front (settled dstart k).0 (settled dstart k).1
unfolding absorb
absorb-returns dstart k k' h = ground arith

-- What bounds the rounds that are left.
abbrev pub weight : Cursor → ℕ
weight k = triangle (length k.front + suc (length k.behind)) + length k.behind

triangle_mono : (m n : ℕ) → m ≤ n → triangle m ≤ triangle n
triangle_mono zero n h = omega arith
triangle_mono (suc m) zero h = absurd (omega arith)
triangle_mono (suc m) (suc n) h = omega (arith, triangle_mono m n)

length-join_all : (c : CirNode) (r : List CirNode) → length (join_all c r).1 ≤ length r
unfolding join_all
length-join_all c [] = omega arith
length-join_all c (n ∷ r) = ground (arith, length-join_all (join c n) r)

length-blend_all :
    (dstart : ℕ) (c : CirNode) (r : List CirNode) → length (blend_all dstart c r).1 ≤ length r
unfolding blend_all
length-blend_all dstart c [] = omega arith
length-blend_all dstart c (n ∷ r) = ground (arith, length-blend_all dstart (blend c n) r)

weight-advance :
    (front : List CirNode) (c d : CirNode) (r r' : List CirNode)
    → length r' ≤ length r
    → 0 < length r
    → weight (advance front c r') < weight (record { front = front; current = d; behind = r })
unfolding advance
weight-advance front c d r (n ∷ r') h some = omega (
  arith,
  length-append front (c ∷ []),
  triangle_mono (length (front ++ (c ∷ [])) + suc (length r')) (length front + suc (length r)),
)
weight-advance [] c d r [] h some = omega (arith, triangle_mono 1 (0 + suc (length r)))
weight-advance (x ∷ t) c d r [] h some = omega (
  arith,
  length-append t (c ∷ []),
  triangle_mono (suc (0 + suc (length (t ++ (c ∷ []))))) (suc (length t) + suc (length r)),
)

pub weight-absorb :
    (dstart : ℕ) (k k' : Cursor)
    → absorb dstart k ≡ returns k'
    → 0 < length k.behind
    → weight k' < weight k
weight-absorb dstart k k' h some =
    subst (λ (x : Cursor). weight x < weight k) (sym (absorb-returns dstart k k' h))
      (weight-advance k.front (settled dstart k).0 k.current k.behind (settled dstart k).1
        (omega (
          arith,
          length-join_all k.current k.behind,
          length-blend_all dstart (join_all k.current k.behind).0 (join_all k.current k.behind).1,
        ))
        some)

-- A round ends, or it takes `head` in.
pub absorb-cases :
    (dstart : ℕ) (k : Cursor)
    → (absorb dstart k ≡ endless) ⊎ ((k' : Cursor) × (absorb dstart k ≡ returns k'))
unfolding absorb
absorb-cases dstart k =
    let c = join_all k.current k.behind in
    elim (Bool-cases (closes joins k.front c.0 c.1)) [
      | inl e ↦ inl (rw e)
      | inr e ↦
          elim (Bool-cases
            (closes (blends dstart) k.front (settled dstart k).0 (settled dstart k).1)) [
              | inl f ↦ inl (rw (e, f))
              | inr f ↦ inr (advance k.front (settled dstart k).0 (settled dstart k).1, rw (e, f))
            ]
    ]

pub rest-cases : (r : List CirNode) → (r ≡ []) ⊎ (0 < length r)
rest-cases [] = inl refl
rest-cases (n ∷ r) = inr (omega arith)

pub merge_from_stop :
    (fuel dstart : ℕ) (k : Cursor)
    → k.behind ≡ []
    → merge_from (suc fuel) dstart k ≡ returns (nodes k)
unfolding merge_from
merge_from_stop fuel dstart k e = rw e

pub merge_from_step :
    (fuel dstart : ℕ) (k : Cursor)
    → 0 < length k.behind
    → merge_from (suc fuel) dstart k ≡ (absorb dstart k >>= λ k'. merge_from fuel dstart k')
merge_from_step fuel dstart k = by_rest k.behind
  where
    by_rest :
        (r : List CirNode)
        → 0 < length r
        → let l : Cursor = record k { behind = r } in
          merge_from (suc fuel) dstart l ≡ (absorb dstart l >>= λ k'. merge_from fuel dstart k')
    by_rest [] some = absurd (omega arith)
    by_rest (n ∷ r) some = unfold merge_from in refl

merge_from-finishes :
    (fuel dstart : ℕ) (k : Cursor) → weight k < fuel → merge_from fuel dstart k ≢ unfinished
merge_from-finishes zero dstart k h e = absurd (omega arith)
merge_from-finishes (suc fuel) dstart k h e = elim (rest-cases k.behind) [
  | inl none_left ↦ cc (merge_from_stop fuel dstart k none_left)
  | inr some ↦ elim (absorb-cases dstart k) [
    | inl never ↦ let step = merge_from_step fuel dstart k some in cc (rw never at step)
    | inr (k', done) ↦
        let step = merge_from_step fuel dstart k some in
        let less = weight-absorb dstart k k' done some in
        merge_from-finishes fuel dstart k' (omega arith) (sym (rw done at step) ∙ e)
  ]
]

pub weight_first : (n : ℕ) → triangle (0 + suc n) + n < triangle (suc (suc n))
weight_first n = let e : 0 + suc n ≡ suc n = omega arith in rw e (omega arith)

-- On any list of nodes the fuel given to the outer loop of `mergeList`, which depends on the number
-- of nodes alone, never runs out: the call ends, or an inner loop takes `head` in.
pub merge_list-finishes : (dstart : ℕ) (ring : List CirNode) → merge_list dstart ring ≢ unfinished
unfolding merge_list
merge_list-finishes dstart [] e = cc
merge_list-finishes dstart (h ∷ t) e =
    merge_from-finishes (triangle (suc (suc (length t)))) dstart _ (weight_first (length t)) e

-- What every round keeps, `mergeList` keeps.
module _ (dstart : ℕ) (P : List CirNode → Type 0) where
  merge_from_keeps :
      ((k k' : Cursor) → absorb dstart k ≡ returns k' → P (nodes k) → P (nodes k'))
      → (fuel : ℕ) (k : Cursor) (r : List CirNode) → merge_from fuel dstart k ≡ returns r
      → P (nodes k)
      → P r
  merge_from_keeps keep zero k r e p = unfold merge_from in cc
  merge_from_keeps keep (suc fuel) k r e p = elim (rest-cases k.behind) [
    | inl none_left ↦
        let same_list : nodes k ≡ r = cc (merge_from_stop fuel dstart k none_left) in
        subst P same_list p
    | inr some ↦ elim (absorb-cases dstart k) [
      | inl never ↦ let step = merge_from_step fuel dstart k some in cc (rw never at step)
      | inr (k', done) ↦
          let step = merge_from_step fuel dstart k some in
          merge_from_keeps keep fuel k' r (sym (rw done at step) ∙ e) (keep k k' done p)
    ]
  ]

  pub merge_list_keeps :
      ((k k' : Cursor) → absorb dstart k ≡ returns k' → P (nodes k) → P (nodes k'))
      → (ring r : List CirNode) → merge_list dstart ring ≡ returns r
      → P ring
      → P r
  unfolding merge_list
  merge_list_keeps keep [] r e p = cc
  merge_list_keeps keep (h ∷ t) r e p =
      merge_from_keeps keep (triangle (suc (suc (length t)))) _ r e p

-- A predicate of the cursor that each round keeps, and with which none takes `head` in.
module _ (dstart : ℕ) (P : Cursor → Type 0) where
  merge_from_total :
      ((k : Cursor)
        → P k
        → 0 < length k.behind
        → (k' : Cursor) × (absorb dstart k ≡ returns k') × P k')
      → (fuel : ℕ) (k : Cursor) → weight k < fuel
      → P k
      → (k' : Cursor) × (merge_from fuel dstart k ≡ returns (nodes k')) × (k'.behind ≡ []) × P k'
  merge_from_total round zero k h p = absurd (omega arith)
  merge_from_total round (suc fuel) k h p = elim (rest-cases k.behind) [
    | inl none_left ↦ (k, merge_from_stop fuel dstart k none_left, none_left, p)
    | inr some ↦
        let (k', done, p') = round k p some in
        let less = weight-absorb dstart k k' done some in
        let (l, e, stop, q) = merge_from_total round fuel k' (omega arith) p' in
        (l, merge_from_step fuel dstart k some ∙ rw done e, stop, q)
  ]

  pub merge_list_total :
      ((k : Cursor)
        → P k
        → 0 < length k.behind
        → (k' : Cursor) × (absorb dstart k ≡ returns k') × P k')
      → (h : CirNode) (t : List CirNode) → P (record { front = []; current = h; behind = t })
      → (k' : Cursor) × (merge_list dstart (h ∷ t) ≡ returns (nodes k')) × (k'.behind ≡ []) × P k'
  unfolding merge_list
  merge_list_total round h t p =
      merge_from_total round (triangle (suc (suc (length t)))) _ (weight_first (length t)) p
