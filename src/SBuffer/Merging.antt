-- ===== src/SBuffer/Merging.antt =====
-- `mergeList` of sbuffer.c in the first window: it ends, and leaves no two neighbours of one kind.
use project.Base.{◌≡◌, refl, sym, ap, ◌∙◌, subst, Bool, false, ◌||◌, List, [], ◌∷◌, ◌++◌, arith}
use project.SBuffer.{CirNode, returns, Cursor, nodes, joins, join_all, advance, absorb, merge_list}
use project.SBuffer.Tiles.{
  Tiles, Tiles-le, Tiles-append, Tiles-split, filled_at, filled_at-append, SamePackets, Meets,
  join_all-Joined, blend_all_none, closes_none,
}
use project.SBuffer.Merge.{advance-nodes, merge_list_total}

-- No two neighbours are of one kind.
abbrev pub Apart : List CirNode → Type 0
Apart [] = Unit
Apart (c ∷ r) = Meets c r × Apart r

Apart-replace :
    (front : List CirNode) (c c' : CirNode)
    → c'.first_seq ≡ c.first_seq
    → c'.filled ≡ c.filled
    → Apart (front ++ (c ∷ []))
    → Apart (front ++ (c' ∷ []))
unfolding joins
Apart-replace [] c c' e f a = (tt, tt)
Apart-replace (x ∷ []) c c' e f a = (ground arith, (tt, tt))
Apart-replace (x ∷ (y ∷ front)) c c' e f a = (a.0, Apart-replace (y ∷ front) c c' e f a.1)

Apart-snoc :
    (front : List CirNode) (c n : CirNode)
    → joins c n ≡ false
    → Apart (front ++ (c ∷ []))
    → Apart ((front ++ (c ∷ [])) ++ (n ∷ []))
Apart-snoc [] c n e a = (e, (tt, tt))
Apart-snoc (x ∷ []) c n e a = (a.0, (e, (tt, tt)))
Apart-snoc (x ∷ (y ∷ front)) c n e a = (a.0, Apart-snoc (y ∷ front) c n e a.1)

-- What holds of the cursor of `mergeList` in the first window.
pub record Merging (ring : List CirNode) (k : Cursor) : Type 0 where
  pub tiles : Tiles 1 (nodes k) 65
  pub packets : SamePackets (nodes k) ring
  pub apart : Apart (k.front ++ (k.current ∷ []))

advance-Apart :
    (front : List CirNode) (c : CirNode) (r : List CirNode)
    → Meets c r
    → Apart (front ++ (c ∷ []))
    → Apart ((advance front c r).front ++ ((advance front c r).current ∷ []))
unfolding advance
advance-Apart front c (n ∷ r) m a = Apart-snoc front c n m a
advance-Apart [] c [] m a = (tt, tt)
advance-Apart (h ∷ t) c [] m a = (tt, tt)

SamePackets-behind :
    (front xs ys : List CirNode) → SamePackets xs ys → SamePackets (front ++ xs) (front ++ ys)
SamePackets-behind front xs ys h j =
    filled_at-append j front xs
    ∙ ap (λ (x : Bool). filled_at j front || x) (h j)
    ∙ sym (filled_at-append j front ys)

absorb-Merging :
    (ring : List CirNode) (k : Cursor)
    → Merging ring k
    → (k' : Cursor) × (absorb 1 k ≡ returns k') × Merging ring k'
unfolding absorb
absorb-Merging ring k m =
    let (s, a, b) = Tiles-split 1 65 k.front (k.current ∷ k.behind) m.tiles in
    let c = (join_all k.current k.behind).0 in
    let r = (join_all k.current k.behind).1 in
    let j = join_all-Joined s 65 k.current k.behind (Tiles-le 1 k.front s a) b in
    let stay = blend_all_none s 65 c r j.tiles j.meets in
    let t = Tiles-append 1 s 65 k.front (c ∷ r) a j.tiles in
    let (open_j, open_b) = closes_none k.front c r t in
    (
      advance k.front c r,
      rw (open_j, stay) (rw open_b refl),
      record {
        tiles = subst (λ (l : List CirNode). Tiles 1 l 65) (sym (advance-nodes k.front c r)) t;
        packets =
            subst (λ (l : List CirNode). SamePackets l ring) (sym (advance-nodes k.front c r))
              (λ i.
                SamePackets-behind k.front (c ∷ r) (k.current ∷ k.behind) j.packets i
                ∙ m.packets i);
        apart =
            advance-Apart k.front c r j.meets
              (Apart-replace k.front k.current c j.same_first j.same_kind m.apart);
      },
    )

-- A ring of the first window that is merged.
pub record IsMerged (ring r : List CirNode) : Type 0 where
  pub tiles : Tiles 1 r 65
  pub packets : SamePackets r ring
  pub apart : Apart r

-- `mergeList` in the first window: it ends, and the nodes show the same packets, with no two
-- neighbours of one kind.
pub merge_list-IsMerged :
    (ring : List CirNode)
    → Tiles 1 ring 65
    → (r : List CirNode) × (merge_list 1 ring ≡ returns r) × IsMerged ring r
merge_list-IsMerged [] t = absurd (omega arith)
merge_list-IsMerged (h ∷ r) t =
    let (k, e, stop, m) =
      merge_list_total 1 (Merging (h ∷ r)) (λ k m some. absorb-Merging (h ∷ r) k m) h r
        (record { tiles = t; packets = λ j. refl; apart = (tt, tt) }) in
    (nodes k, e, record { tiles = m.tiles; packets = m.packets; apart = rw stop m.apart })
