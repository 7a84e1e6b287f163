-- ===== src/SBuffer/Capacity.antt =====
-- sbuffer.c: the bytes that the nodes of the ring stand for, filled or not.
use project.Base.{
  ℕ, ◌+◌, ◌≡◌, inl, inr, refl, sym, ap, ◌∙◌, subst, false, List, [], ◌∷◌, ◌++◌, ◌&&◌, ◌==◌,
  append_assoc, arith, Bool-cases, Option, some, none, if◌then◌else◌, ltb,
}
use project.Int.{
  ℤ, pos, negsuc, ◌+ℤ◌, ltb_ℤ, leb_ℤ, int_laws, eq_of_parts, +ℤ_assoc, +ℤ_zero, zero-+ℤ,
}
use project.SBuffer.{
  CirNode, SBuffer, initialize, packet_node, split_hole, fill_hole, returns, Cursor, nodes, joins,
  blends, join, blend, join_all, blend_all, absorb, merge_list, fill, fill_beginning, fill_middle,
  fill_end, write_packet, store, scan, add_data, read_packet, take_whole, take_part, request_data,
}
use project.SBuffer.Results.{Gives, Gives-all, bind-Gives, try_node-Gives, Gives-returns}
use project.SBuffer.Merge.{absorb-returns, advance-nodes, merge_list_keeps}

pub total : List CirNode → ℤ
total [] = pos 0
total (n ∷ r) = n.size +ℤ total r

pub total-append : (xs ys : List CirNode) → total (xs ++ ys) ≡ total xs +ℤ total ys
unfolding total
total-append [] ys = sym (zero-+ℤ (total ys))
total-append (n ∷ xs) ys = rw (total-append xs ys) (sym (+ℤ_assoc n.size (total xs) (total ys)))

total-join_all :
    (c : CirNode) (r : List CirNode) → total ((join_all c r).0 ∷ (join_all c r).1) ≡ total (c ∷ r)
unfolding total join_all join
total-join_all c [] = refl
total-join_all c (n ∷ r) = elim (Bool-cases (joins c n)) [
  | inl e ↦ rw e (total-join_all (join c n) r ∙ +ℤ_assoc c.size n.size (total r))
  | inr e ↦ rw e
]

total-blend_all :
    (dstart : ℕ) (c : CirNode) (r : List CirNode)
    → total ((blend_all dstart c r).0 ∷ (blend_all dstart c r).1) ≡ total (c ∷ r)
unfolding total blend_all blend
total-blend_all dstart c [] = refl
total-blend_all dstart c (n ∷ r) = elim (Bool-cases (blends dstart c n)) [
  | inl e ↦ rw e (total-blend_all dstart (blend c n) r ∙ +ℤ_assoc c.size n.size (total r))
  | inr e ↦ rw e
]

total_behind :
    (front xs ys : List CirNode) → total xs ≡ total ys → total (front ++ xs) ≡ total (front ++ ys)
total_behind front xs ys e = rw (total-append front xs, total-append front ys, e)

total-absorb :
    (dstart : ℕ) (k k' : Cursor) → absorb dstart k ≡ returns k' → total (nodes k') ≡ total (nodes k)
total-absorb dstart k k' h =
    ap (λ (x : Cursor). total (nodes x)) (absorb-returns dstart k k' h)
    ∙ ap total (advance-nodes k.front _ _)
    ∙ total_behind k.front _ (k.current ∷ k.behind)
        (total-blend_all dstart _ _ ∙ total-join_all k.current k.behind)

pub total-merge_list :
    (dstart : ℕ) (ring r : List CirNode) → merge_list dstart ring ≡ returns r → total r ≡ total ring
total-merge_list dstart ring r h =
    merge_list_keeps dstart (λ l. total l ≡ total ring)
      (λ k k' step e. total-absorb dstart k k' step ∙ e) ring r h refl

-- What `fill` makes of a hole stands for as many bytes.
abbrev Fits : CirNode → Option Cursor → Type 0
Fits c none = Unit {0}
Fits c (some k) = total (nodes k) ≡ total (c ∷ [])

fill_beginning-Fits : (seqnum size : ℕ) (c : CirNode) → Fits c (fill_beginning seqnum size c)
unfolding total fill_beginning split_hole fill_hole packet_node
fill_beginning-Fits seqnum size c = elim (Bool-cases (ltb_ℤ (pos size) c.size)) [
  | inl less ↦ rw less (omega int_laws)
  | inr more ↦ elim (Bool-cases (leb_ℤ (pos size) c.size)) [
    | inl all ↦
        let e : c.size ≡ pos size = eq_of_parts c.size (pos size) (ground arith) in
        rw (more, all) (ap (λ (z : ℤ). z +ℤ pos 0) (sym e))
    | inr over ↦ rw (more, over) tt
  ]
]

fill-Fits : (seqnum size : ℕ) (c : CirNode) → Fits c (fill seqnum size c)
unfolding total fill fill_middle fill_end packet_node
fill-Fits seqnum size c = elim (Bool-cases (c.first_seq == seqnum)) [
  | inl b ↦ rw b (fill_beginning-Fits seqnum size c)
  | inr b ↦ elim (Bool-cases (ltb c.first_seq seqnum && ltb seqnum c.last_seq)) [
    | inl m ↦ rw (b, m) (omega int_laws)
    | inr m ↦ elim (Bool-cases (ltb c.first_seq seqnum && (c.last_seq == seqnum))) [
      | inl e ↦ rw (b, m, e) (omega int_laws)
      | inr e ↦ rw (b, m, e) tt
    ]
  ]
]

merge_list-total :
    (dstart : ℕ) (ring : List CirNode) → Gives (λ r. total r ≡ total ring) (merge_list dstart ring)
merge_list-total dstart ring = Gives-all _ (merge_list dstart ring) (total-merge_list dstart ring)

-- A node of the ring in another's place.
total_replace :
    (front r : List CirNode) (c : CirNode) (k : Cursor)
    → total (nodes k) ≡ total (c ∷ [])
    → total (front ++ (nodes k ++ r)) ≡ total (front ++ (c ∷ r))
total_replace front r c k e =
    total_behind front (nodes k ++ r) (c ∷ r)
      (total-append (nodes k) r ∙ ap (λ (z : ℤ). z +ℤ total r) e ∙ sym (total-append (c ∷ []) r))

module _ (seqnum size : ℕ) (bytes : List ℕ) (b : SBuffer) where
  store-total :
      (front r : List CirNode) (c : CirNode) (k : Cursor)
      → total (nodes k) ≡ total (c ∷ [])
      → Gives (λ o. total o.1.ring ≡ total (front ++ (c ∷ r))) (store seqnum size bytes b front k r)
  unfolding store
  store-total front r c k e =
      bind-Gives (λ _. Unit {0}) _ (write_packet b.buffer k.current.dat size bytes) _
        (Gives-all _ _ (λ _ _. tt))
        λ buffer' _ _.
          bind-Gives (λ l. total l ≡ total (front ++ (nodes k ++ r))) _
            (merge_list b.dstart (front ++ (nodes k ++ r))) _ (merge_list-total b.dstart _)
            λ ring' _ same. same ∙ total_replace front r c k e

  scan-total :
      (front r : List CirNode)
      → b.ring ≡ front ++ r
      → Gives (λ o. total o.1.ring ≡ total b.ring) (scan seqnum size bytes b front r)
  unfolding scan
  scan-total front [] e = refl
  scan-total front (c ∷ r) e =
      try_node-Gives Kept ((c.first_seq == seqnum) && c.filled) (ltb (b.dstart + 63) seqnum)
        c.filled (fill seqnum size c) b (scan seqnum size bytes b (front ++ (c ∷ [])) r)
        (λ k. store seqnum size bytes b front k r) refl refl
        (scan-total (front ++ (c ∷ [])) r (e ∙ sym (append_assoc front (c ∷ []) r)))
        λ k made.
          subst
            (λ (l : List CirNode).
              Gives (λ o. total o.1.ring ≡ total l) (store seqnum size bytes b front k r))
            (sym e) (store-total front r c k (subst (Fits c) made (fill-Fits seqnum size c)))
    where
      Kept : ℕ × SBuffer → Type 0
      Kept o = total o.1.ring ≡ total b.ring

-- `addData` keeps the number of bytes that the nodes stand for.
pub add_data-total :
    (seqnum size : ℕ) (bytes : List ℕ) (b : SBuffer)
    → Gives (λ o. total o.1.ring ≡ total b.ring) (add_data seqnum size bytes b)
unfolding add_data
add_data-total seqnum size bytes b =
    bind-Gives (λ l. total l ≡ total b.ring) (λ o. total o.1.ring ≡ total b.ring)
      (merge_list b.dstart b.ring) _ (merge_list-total b.dstart b.ring)
      λ ring' _ same.
        subst
          (λ (z : ℤ).
            Gives (λ o. total o.1.ring ≡ z)
              (scan seqnum size bytes (record b { ring = ring' }) [] ring'))
          same (scan-total seqnum size bytes (record b { ring = ring' }) [] ring' refl)

-- The bytes that a request takes off a node without emptying it.
pub part_of : ℕ → SBuffer → ℕ
part_of size b = elim b.ring [
  | [] ↦ 0
  | h ∷ t ↦
      if h.filled && (h.first_seq == b.dstart)
      then (if leb_ℤ h.size (pos size) then 0 else size)
      else 0
]

take_whole-total :
    (b : SBuffer) (h : CirNode) (t : List CirNode) (z : ℤ)
    → Gives (λ o. total o.1.ring +ℤ pos 0 ≡ total (h ∷ t)) (take_whole b h t z)
unfolding take_whole total
take_whole-total b h t (negsuc n) = tt
take_whole-total b h t (pos size) =
    bind-Gives (λ _. Unit {0}) _ (read_packet b.buffer h.dat size size) _
      (Gives-all _ _ (λ _ _. tt))
      λ bytes _ _.
        bind-Gives (λ l. total l ≡ total ring) _ (merge_list (h.last_seq + 1) ring) _
          (merge_list-total (h.last_seq + 1) ring)
          λ ring' _ same.
            +ℤ_zero (total ring')
            ∙ same
            ∙ total-append t (record h { filled = false } ∷ [])
            ∙ swap (total t) h.size
  where
    ring : List CirNode
    ring = t ++ (record h { filled = false } ∷ [])

    swap : (x y : ℤ) → x +ℤ (y +ℤ pos 0) ≡ y +ℤ x
    swap x y = omega int_laws

take_part-total :
    (size : ℕ) (b : SBuffer) (h : CirNode) (t : List CirNode) (z : ℤ)
    → h.size ≡ z
    → Gives (λ o. total o.1.ring +ℤ pos size ≡ total (h ∷ t)) (take_part size b h t z)
unfolding take_part total
take_part-total size b h t (negsuc n) e = tt
take_part-total size b h t (pos more) e =
    bind-Gives (λ _. Unit {0}) _ (read_packet b.buffer h.dat more size) _
      (Gives-all _ _ (λ _ _. tt)) λ bytes _ _. rw e (omega int_laws)

-- `requestData` takes from the ring just what it reads without emptying a node.
pub request_data-total :
    (size : ℕ) (b : SBuffer)
    → Gives (λ o. total o.1.ring +ℤ pos (part_of size b) ≡ total b.ring) (request_data size b)
request_data-total size b = by_ring b.ring
  where
    by_ring :
        (l : List CirNode)
        → let c : SBuffer = record b { ring = l } in
          Gives (λ o. total o.1.ring +ℤ pos (part_of size c) ≡ total l) (request_data size c)
    by_ring [] = unfold request_data in tt
    by_ring (h ∷ t) = elim (Bool-cases (h.filled && (h.first_seq == b.dstart))) [
      | inl ready ↦ elim (Bool-cases (leb_ℤ h.size (pos size))) [
        | inl all ↦ unfold request_data part_of in rw (ready, all) (take_whole-total _ h t h.size)
        | inr some_left ↦
            unfold request_data part_of in
            rw (ready, some_left) (take_part-total size _ h t h.size refl)
      ]
      | inr empty ↦ unfold request_data part_of in rw empty (+ℤ_zero (total (h ∷ t)))
    ]

-- What the calls of `addData` and `requestData` make of the buffer that `initialize` leaves, as far
-- as they return, with the number of bytes that were read without emptying a node.
pub data Reach : ℕ → SBuffer → Type 0 where
  start : Reach 0 initialize
  added :
      {lost : ℕ} {b b' : SBuffer}
      → Reach lost b
      → (seqnum size : ℕ) (bytes : List ℕ) (result : ℕ)
      → add_data seqnum size bytes b ≡ returns (result, b')
      → Reach lost b'
  read :
      {lost : ℕ} {b b' : SBuffer}
      → Reach lost b
      → (size : ℕ) (bytes : List ℕ) → request_data size b ≡ returns (bytes, b')
      → Reach (lost + part_of size b) b'

-- After any calls of `addData` and `requestData` the nodes stand for 64000 bytes less all those
-- that were read without emptying a node: such a read takes its bytes off the buffer for good.
pub Reach-total : {lost : ℕ} {b : SBuffer} → Reach lost b → total b.ring +ℤ pos lost ≡ pos 64000
Reach-total start = unfold total initialize in omega int_laws
Reach-total (added {lost} {b} {b'} r seqnum size bytes result e) =
    ap (λ (z : ℤ). z +ℤ pos lost)
      (Gives-returns _ (add_data seqnum size bytes b) (result, b')
        (add_data-total seqnum size bytes b) e)
    ∙ Reach-total r
Reach-total (read {lost} {b} {b'} r size bytes e) =
    regroup (total b'.ring)
    ∙ ap (λ (z : ℤ). z +ℤ pos lost)
        (Gives-returns _ (request_data size b) (bytes, b') (request_data-total size b) e)
    ∙ Reach-total r
  where
    regroup : (z : ℤ) → z +ℤ pos (lost + part_of size b) ≡ z +ℤ pos (part_of size b) +ℤ pos lost
    regroup z = omega int_laws
