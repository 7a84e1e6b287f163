-- ===== src/SBuffer/Machine/Simulation.antt =====
-- `merge_list` follows the tests of `mergeList` of sbuffer.c one by one.
use project.Base.{
  ℕ, zero, suc, ◌<◌, ◌≡◌, ◌⊎◌, inl, inr, refl, sym, ◌∙◌, subst, Bool, true, false, List, [], ◌∷◌,
  arith, length, Bool-cases, some, none,
}
use project.SBuffer.{
  CirNode, Run, returns, endless, Cursor, nodes, joins, blends, join, blend, join_all, blend_all,
  closes, advance, absorb, merge_from, merge_list, triangle,
}
use project.SBuffer.Merge.{
  weight, weight-absorb, weight_first, rest-cases, merge_from_stop, merge_from_step,
}
use project.SBuffer.Machine.{
  outer, joining, blending, next_node, take_in, goes_on, step, step_of, Steps, here, next, Never,
  at, start, Never-step, Never-Steps, Steps-append, Never-head_left, Never-joins, Never-blends,
}

not_true : false ≡ true → ⊥
not_true e = cc

module _ (d : ℕ) where
  enter :
      (front : List CirNode) (c : CirNode) (r : List CirNode)
      → 0 < length r
      → step d outer front c r false ≡ some (at joining front c r)
  unfolding step goes_on
  enter front c [] h = absurd (omega arith)
  enter front c (n ∷ r) h = refl

  stay :
      (front : List CirNode) (c : CirNode) (r : List CirNode)
      → r ≡ []
      → step d outer front c r false ≡ none
  unfolding step goes_on
  stay front c [] h = refl
  stay front c (n ∷ r) h = cc

  -- Where an inner loop has stopped in front of a node other than `head`, its test fails.
  abbrev Stops : (CirNode → CirNode → Bool) → CirNode → List CirNode → Type 0
  Stops test c [] = Unit
  Stops test c (n ∷ r) = test c n ≡ false

  join_all-Steps :
      (front : List CirNode) (c : CirNode) (r : List CirNode)
      → Steps d (at joining front c r) (at joining front (join_all c r).0 (join_all c r).1)
        × Stops joins (join_all c r).0 (join_all c r).1
  unfolding join_all
  join_all-Steps front c [] = (here, tt)
  join_all-Steps front c (n ∷ r) = elim (Bool-cases (joins c n)) [
    | inl e ↦
        let ih = join_all-Steps front (join c n) r in
        let first : step d joining front c (n ∷ r) false ≡ some (at joining front (join c n) r) =
          unfold step next_node take_in in rw e refl in
        rw e (next first ih.0, ih.1)
    | inr e ↦ rw e (here, e)
  ]

  blend_all-Steps :
      (front : List CirNode) (c : CirNode) (r : List CirNode)
      → Steps d (at blending front c r) (at blending front (blend_all d c r).0 (blend_all d c r).1)
        × Stops (blends d) (blend_all d c r).0 (blend_all d c r).1
  unfolding blend_all
  blend_all-Steps front c [] = (here, tt)
  blend_all-Steps front c (n ∷ r) = elim (Bool-cases (blends d c n)) [
    | inl e ↦
        let ih = blend_all-Steps front (blend c n) r in
        let first : step d blending front c (n ∷ r) false ≡ some (at blending front (blend c n) r) =
          unfold step next_node take_in in rw e refl in
        rw e (next first ih.0, ih.1)
    | inr e ↦ rw e (here, e)
  ]

  test_fails :
      (test : CirNode → CirNode → Bool) (front : List CirNode) (c : CirNode) (r : List CirNode)
      → closes test front c r ≡ false
      → Stops test c r
      → test c (next_node front c r) ≡ false
  unfolding closes next_node
  test_fails test front c [] e s = e
  test_fails test front c (n ∷ r) e s = s

  join_stop :
      (front : List CirNode) (c : CirNode) (r : List CirNode)
      → closes joins front c r ≡ false
      → Stops joins c r
      → step d joining front c r false ≡ some (at blending front c r)
  unfolding step
  join_stop front c r e s = rw (test_fails joins front c r e s) refl

  blend_stop :
      (front : List CirNode) (c : CirNode) (r : List CirNode)
      → closes (blends d) front c r ≡ false
      → Stops (blends d) c r
      → step d blending front c r false ≡ some (start (advance front c r))
  unfolding step
  blend_stop front c r e s = rw (test_fails (blends d) front c r e s) refl

  join_closes :
      (front : List CirNode) (c : CirNode) (r : List CirNode)
      → closes joins front c r ≡ true
      → Never d (at joining front c r)
  unfolding closes
  join_closes front c (n ∷ r) e = absurd (not_true e)
  join_closes [] c [] e = Never-joins d c e
  join_closes (h ∷ t) c [] e =
      Never-step d _
        (record { phase = joining; front = t; current = join c h; behind = []; head_left = true })
        (unfold step next_node take_in in rw e refl) (Never-head_left d _ refl)

  blend_closes :
      (front : List CirNode) (c : CirNode) (r : List CirNode)
      → closes (blends d) front c r ≡ true
      → Never d (at blending front c r)
  unfolding closes
  blend_closes front c (n ∷ r) e = absurd (not_true e)
  blend_closes [] c [] e = Never-blends d c e
  blend_closes (h ∷ t) c [] e =
      Never-step d _
        (record { phase = blending; front = t; current = blend c h; behind = []; head_left = true })
        (unfold step next_node take_in in rw e refl) (Never-head_left d _ refl)

  -- A round of the outer loop: it takes `head` in and never ends, or it comes to the next round.
  round-cases :
      (k : Cursor)
      → 0 < length k.behind
      → ((absorb d k ≡ endless) × Never d (start k))
        ⊎ ((k' : Cursor) × (absorb d k ≡ returns k') × Steps d (start k) (start k'))
  unfolding absorb
  round-cases k some_left =
      let (js, j_stops) = join_all-Steps k.front k.current k.behind in
      let c = (join_all k.current k.behind).0 in
      let r = (join_all k.current k.behind).1 in
      let (bs, b_stops) = blend_all-Steps k.front c r in
      let c' = (blend_all d c r).0 in
      let r' = (blend_all d c r).1 in
      let to_joined = next (enter k.front k.current k.behind some_left) js in
      elim (Bool-cases (closes joins k.front c r)) [
        | inl on ↦ inl (rw on refl, Never-Steps d to_joined (join_closes k.front c r on))
        | inr off ↦
            let to_blended =
              Steps-append d to_joined (next (join_stop k.front c r off j_stops) bs) in
            elim (Bool-cases (closes (blends d) k.front c' r')) [
              | inl on ↦
                  inl (rw (off, on) refl, Never-Steps d to_blended (blend_closes k.front c' r' on))
              | inr off' ↦ inr (
                advance k.front c' r',
                rw (off, off') refl,
                Steps-append d to_blended (next (blend_stop k.front c' r' off' b_stops) here),
              )
            ]
      ]

  -- What a run of the whole loop comes to.
  abbrev pub RunsAs : Cursor → Run (List CirNode) → Type 0
  RunsAs k m =
      ((m ≡ endless) × Never d (start k))
      ⊎ ((l : Cursor) × (m ≡ returns (nodes l))
          × Steps d (start k) (start l)
          × (step_of d (start l) ≡ none))

  RunsAs-Steps :
      (k k' : Cursor) (m : Run (List CirNode))
      → Steps d (start k) (start k')
      → RunsAs k' m
      → RunsAs k m
  RunsAs-Steps k k' m s (inl (e, never)) = inl (e, Never-Steps d s never)
  RunsAs-Steps k k' m s (inr (l, e, t, stop)) = inr (l, e, Steps-append d s t, stop)

  merge_from-runs : (fuel : ℕ) (k : Cursor) → weight k < fuel → RunsAs k (merge_from fuel d k)
  merge_from-runs zero k h = absurd (omega arith)
  merge_from-runs (suc fuel) k h = elim (rest-cases k.behind) [
    | inl none_left ↦
        inr (k, merge_from_stop fuel d k none_left, here, stay k.front k.current k.behind none_left)
    | inr some_left ↦ elim (round-cases k some_left) [
      | inl (e, never) ↦ inl (merge_from_step fuel d k some_left ∙ rw e refl, never)
      | inr (k', e, s) ↦
          let less = weight-absorb d k k' e some_left in
          let whole : merge_from (suc fuel) d k ≡ merge_from fuel d k' =
            merge_from_step fuel d k some_left ∙ rw e refl in
          subst (RunsAs k) (sym whole)
            (RunsAs-Steps k k' _ s (merge_from-runs fuel k' (omega arith)))
    ]
  ]

-- `mergeList` from `head` on a list of one node or more: where the model says that the call never
-- returns, no number of tests made one by one on the ring ends it; where the model says what it
-- leaves, the tests lead there, and the test of the outer loop then ends the call.
pub merge_list-runs :
    (d : ℕ) (h : CirNode) (t : List CirNode)
    → RunsAs d (record { front = []; current = h; behind = t }) (merge_list d (h ∷ t))
unfolding merge_list
merge_list-runs d h t =
    merge_from-runs d (triangle (suc (suc (length t)))) _ (weight_first (length t))
