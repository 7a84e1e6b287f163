-- ===== src/SBuffer/Scan.antt =====
-- The loop of `addData` of sbuffer.c over the nodes of the first window.
use project.Base.{
  ℕ, ◌+◌, ◌-◌, ◌*◌, ◌≤◌, ◌<◌, ◌≡◌, ◌≢◌, ◌⊎◌, inl, inr, refl, sym, ◌∙◌, subst, true, false, ◌&&◌,
  ◌||◌, List, [], ◌∷◌, ◌++◌, append_assoc, arith, ltb, ◌==◌, Bool-cases, if◌then◌else◌, ge→ltb,
  some, none, take, blit,
}
use native.Mathlib.Decide.{dec_lt}
use project.Int.{pos}
use project.SBuffer.{
  CirNode, SBuffer, returns, Cursor, nodes, fill, write_packet, store, scan, try_node, merge_list,
}
use project.SBuffer.Results.{try_node_on, try_node_put}
use project.SBuffer.Tiles.{
  IsTile, Tiles, Tiles-le, Tiles-append, Meets, filled_at, filled_at-append, filled_at_below,
  joins_tile,
}
use project.SBuffer.Merging.{Apart, IsMerged, merge_list-IsMerged}
use project.SBuffer.Fill.{Filled, fill-Filled, fill_beyond, fill_before}

-- The buffer with packet `q` put among the packets of `old`.
pub record Stored (q : ℕ) (bytes : List ℕ) (b : SBuffer) (old : List CirNode) (b' : SBuffer)
    : Type 0 where
  pub buffer_is : b'.buffer ≡ blit b.buffer ((q - 1) * 1000) (take 1000 bytes)
  pub start_is : b'.dstart ≡ b.dstart
  pub end_is : b'.dend ≡ (if ltb b.dend q then q else b.dend)
  pub merged : IsMerged b'.ring b'.ring
  pub packets : (j : ℕ) → filled_at j b'.ring ≡ (filled_at j old || (j == q))

pub covered :
    (c : CirNode) (r : List CirNode) (j : ℕ)
    → Tiles (c.last_seq + 1) r 65
    → filled_at j (c ∷ r) ≡ true
    → j ≤ c.last_seq
    → c.filled ≡ true
unfolding filled_at
covered c r j t f h = ground (arith, filled_at_below j (c.last_seq + 1) 65 r t (omega arith))

pub in_rest :
    (c : CirNode) (r : List CirNode) (j : ℕ)
    → c.last_seq < j
    → filled_at j (c ∷ r) ≡ true
    → filled_at j r ≡ true
unfolding filled_at
in_rest c r j h f = ground arith

not_in_rest :
    (c : CirNode) (r : List CirNode) (j : ℕ) → filled_at j (c ∷ r) ≡ false → filled_at j r ≡ false
unfolding filled_at
not_in_rest c r j f = ground arith

not_covered :
    (s : ℕ) (c : CirNode) (r : List CirNode) (j : ℕ)
    → IsTile s c
    → s ≤ j
    → j ≤ c.last_seq
    → filled_at j (c ∷ r) ≡ false
    → c.filled ≡ false
unfolding filled_at
not_covered s c r j t h h' f = ground (arith, t)

-- A filled node that has packet `q` and not the one in front of it.
starts_at :
    (s q : ℕ) (c : CirNode) (r : List CirNode)
    → IsTile s c
    → s ≤ q
    → q ≤ c.last_seq
    → c.filled ≡ true
    → filled_at (q - 1) (c ∷ r) ≡ false
    → ((c.first_seq == q) && c.filled) ≡ true
unfolding filled_at
starts_at s q c r t h h' full f = ground (arith, t)

with_packet :
    (q : ℕ) (front r : List CirNode) (c : CirNode) (k : Cursor)
    → c.filled ≡ false
    → ((j : ℕ) → filled_at j (nodes k) ≡ (j == q))
    → (j : ℕ) → filled_at j (front ++ (nodes k ++ r)) ≡ (filled_at j (front ++ (c ∷ r)) || (j == q))
with_packet q front r c k hole one j = ground (
  arith,
  filled_at-append j front (nodes k ++ r),
  filled_at-append j (nodes k) r,
  filled_at-append j front (c ∷ r),
  one j,
  at_hole,
)
  where
    at_hole : filled_at j (c ∷ r) ≡ filled_at j r
    at_hole = unfold filled_at in ground arith

pub write_within :
    (buf : List ℕ) (d : ℕ) (bytes : List ℕ)
    → d + 1000 ≤ 64000
    → write_packet buf (pos d) 1000 bytes ≡ returns (blit buf d (take 1000 bytes))
unfolding write_packet
write_within buf d bytes h = rw (ge→ltb 64000 (d + 1000) h) refl

-- Behind a filled node there is a hole.
pub not_next :
    (c : CirNode) (r : List CirNode)
    → c.filled ≡ true
    → Tiles (c.last_seq + 1) r 65
    → Meets c r
    → filled_at (c.last_seq + 1) r ≢ true
unfolding filled_at
not_next c [] full t m f = cc
not_next c (n ∷ r) full t m f =
    let filled = covered n r (c.last_seq + 1) t.1 f (omega (arith, t.0)) in cc (joins_tile c n t.0)

module _ (q : ℕ) (bytes : List ℕ) (b : SBuffer) (start_is : b.dstart ≡ 1) (lo : 1 ≤ q)
    (hi : q ≤ 64) where
  near : ltb (b.dstart + 63) q ≡ false
  near = ground arith

  -- A node that has nothing to do with the packet.
  pass_by :
      (front r : List CirNode) (c : CirNode)
      → ((c.first_seq == q) && c.filled) ≡ false
      → (c.filled ≡ true) ⊎ (fill q 1000 c ≡ none)
      → scan q 1000 bytes b front (c ∷ r) ≡ scan q 1000 bytes b (front ++ (c ∷ [])) r
  unfolding scan
  pass_by front r c new other = try_node_on _ _ _ _ b _ _ new near other

  pub scan_past :
      (s e : ℕ) (front r : List CirNode)
      → Tiles s r e
      → q < s
      → scan q 1000 bytes b front r ≡ returns (0, b)
  scan_past s e front [] t h = unfold scan in refl
  scan_past s e front (c ∷ r) t h =
      pass_by front r c (ground (arith, t.0)) (elim (Bool-cases c.filled) [
        | inl full ↦ inl full
        | inr hole ↦ inr (fill_before s c t.0 (omega arith) q h)
      ])
      ∙ scan_past (c.last_seq + 1) e (front ++ (c ∷ [])) r t.1 (omega (arith, t.0))

  passes :
      (s : ℕ) (front r : List CirNode) (c : CirNode)
      → IsTile s c
      → 1 ≤ s
      → s < q
      → (c.last_seq < q) ⊎ (c.filled ≡ true)
      → scan q 1000 bytes b front (c ∷ r) ≡ scan q 1000 bytes b (front ++ (c ∷ [])) r
  passes s front r c t p h other =
      pass_by front r c (ground (arith, t))
        (elim other [ inl l ↦ inr (fill_beyond s c t p q l) | inr full ↦ inl full ])

  -- A packet that is there, and the one in front of it too, stands in the middle of a node, where the
  -- loop does not see it.
  pub scan_inside :
      (s : ℕ) (front r : List CirNode)
      → Tiles s r 65
      → Apart r
      → 1 ≤ s
      → s < q
      → filled_at (q - 1) r ≡ true
      → filled_at q r ≡ true
      → scan q 1000 bytes b front r ≡ returns (0, b)
  scan_inside s front [] t a p h f g = unfold scan in refl
  scan_inside s front (c ∷ r) t a p h f g = elim (dec_lt c.last_seq q) [
    | no covers ↦
        let full = covered c r q t.1 g (omega arith) in
        passes s front r c t.0 p h (inr full)
        ∙ scan_past (c.last_seq + 1) 65 (front ++ (c ∷ [])) r t.1 (omega arith)
    | yes beyond ↦ elim (dec_lt (c.last_seq + 1) q) [
      | yes later ↦
          passes s front r c t.0 p h (inl beyond)
          ∙ scan_inside (c.last_seq + 1) (front ++ (c ∷ [])) r t.1 a.1 (omega arith) later
              (in_rest c r (q - 1) (omega arith) f) (in_rest c r q beyond g)
      | no next ↦
          let here : q ≡ c.last_seq + 1 = omega arith in
          let full = covered c r (q - 1) t.1 f (omega arith) in
          absurd (
            not_next c r full t.1 a.0
              (subst (λ (j : ℕ). filled_at j r ≡ true) here (in_rest c r q beyond g)))
    ]
  ]

  -- A packet that is there, and the one in front of it is not, starts a node.
  pub scan_first :
      (s : ℕ) (front r : List CirNode)
      → Tiles s r 65
      → 1 ≤ s
      → s ≤ q
      → filled_at (q - 1) r ≡ false
      → filled_at q r ≡ true
      → scan q 1000 bytes b front r ≡ returns (1, b)
  scan_first s front [] t p h f g = unfold filled_at in cc
  scan_first s front (c ∷ r) t p h f g = elim (dec_lt c.last_seq q) [
    | yes beyond ↦
        passes s front r c t.0 p (omega (arith, t.0)) (inl beyond)
        ∙ scan_first (c.last_seq + 1) (front ++ (c ∷ [])) r t.1 (omega arith) (omega arith)
            (not_in_rest c r (q - 1) f) (in_rest c r q beyond g)
    | no covers ↦
        let full = covered c r q t.1 g (omega arith) in
        unfold scan try_node in rw (starts_at s q c r t.0 h (omega arith) full f) refl
  ]

  put_in :
      (s : ℕ) (front r : List CirNode) (c : CirNode) (k : Cursor)
      → Tiles 1 front s
      → IsTile s c
      → Tiles (c.last_seq + 1) r 65
      → c.filled ≡ false
      → Filled s q c k
      → (b' : SBuffer) × (store q 1000 bytes b front k r ≡ returns (1, b'))
        × Stored q bytes b (front ++ (c ∷ r)) b'
  unfolding store
  put_in s front r c k before t after hole f =
      let tiles =
        Tiles-append 1 s 65 front (nodes k ++ r) before
          (Tiles-append s (c.last_seq + 1) 65 (nodes k) r f.tiles after) in
      let (ring', merges, m) = merge_list-IsMerged (front ++ (nodes k ++ r)) tiles in
      let merges' : merge_list b.dstart (front ++ (nodes k ++ r)) ≡ returns ring' =
        subst (λ (d : ℕ). merge_list d (front ++ (nodes k ++ r)) ≡ returns ring') (sym start_is)
          merges in
      let writes : write_packet b.buffer k.current.dat 1000 bytes
          ≡ returns (blit b.buffer ((q - 1) * 1000) (take 1000 bytes)) =
        rw f.place (write_within b.buffer ((q - 1) * 1000) bytes (omega arith)) in
      (
        _,
        rw (writes, merges') refl,
        record {
          buffer_is = refl;
          start_is = refl;
          end_is = refl;
          merged = record { tiles = m.tiles; packets = λ j. refl; apart = m.apart };
          packets = λ j. m.packets j ∙ with_packet q front r c k hole f.packets j;
        },
      )

  takes :
      (front r : List CirNode) (c : CirNode) (k : Cursor)
      → c.filled ≡ false
      → fill q 1000 c ≡ some k
      → scan q 1000 bytes b front (c ∷ r) ≡ store q 1000 bytes b front k r
  unfolding scan
  takes front r c k hole fills =
      let new : ((c.first_seq == q) && c.filled) ≡ false = ground arith in
      try_node_put _ _ _ _ b _ _ k new near hole fills

  -- A packet that is not there is put in its place.
  pub scan-Stored :
      (s : ℕ) (front r : List CirNode)
      → Tiles 1 front s
      → Tiles s r 65
      → s ≤ q
      → filled_at q r ≡ false
      → (b' : SBuffer) × (scan q 1000 bytes b front r ≡ returns (1, b'))
        × Stored q bytes b (front ++ r) b'
  scan-Stored s front [] before t h new = absurd (omega arith)
  scan-Stored s front (c ∷ r) before t h new = elim (dec_lt c.last_seq q) [
    | yes beyond ↦
        let (b', e, st) =
          scan-Stored (c.last_seq + 1) (front ++ (c ∷ [])) r
            (Tiles-append 1 s (c.last_seq + 1) front (c ∷ []) before (t.0, refl)) t.1 (omega arith)
            (not_in_rest c r q new) in
        (
          b',
          passes s front r c t.0 (Tiles-le 1 front s before) (omega (arith, t.0)) (inl beyond) ∙ e,
          subst (λ (l : List CirNode). Stored q bytes b l b') (append_assoc front (c ∷ []) r) st,
        )
    | no covers ↦
        let hole = not_covered s c r q t.0 h (omega arith) new in
        let (k, fills, f) =
          fill-Filled s c t.0 (Tiles-le 1 front s before) q h (omega arith)
            (omega (arith, Tiles-le (c.last_seq + 1) r 65 t.1)) hole in
        let (b', e, st) = put_in s front r c k before t.0 t.1 hole f in
        (b', takes front r c k hole fills ∙ e, st)
  ]
