-- ===== src/SBuffer/Stuck.antt =====
-- States of sbuffer.c after which no packet gets in any more.
use project.Base.{
  ℕ, ◌+◌, ◌≤◌, ◌<◌, ◌≡◌, ◌≢◌, inl, inr, refl, sym, ap, ◌∙◌, subst, true, false, ◌&&◌, List, [], ◌∷◌,
  ◌++◌, arith, length, ◌==◌, Bool-cases, none,
}
use project.Int.{ℤ, pos, leb_ℤ}
use project.CBuffer.Ring.{ring as bytes_from}
use project.SBuffer.{
  CirNode, SBuffer, returns, endless, ◌>>=◌, joins, blends, join, blend, join_all, blend_all,
  closes, absorb, merge_from, merge_list, fill, scan, add_data, read_packet, take_whole,
  request_data,
}
use project.SBuffer.Results.{try_node-none}
use project.SBuffer.Read.{read_within}

-- One node holds all, and what was asked for is at least that.
pub record AllReady (size : ℕ) (b : SBuffer) (h : CirNode) : Type 0 where
  pub length_is : length b.buffer ≡ 64000
  pub filled_is : h.filled ≡ true
  pub first_is : h.first_seq ≡ b.dstart
  pub in_order : h.first_seq ≤ h.last_seq
  pub off : ℕ
  pub more : ℕ
  pub dat_is : h.dat ≡ pos off
  pub size_is : h.size ≡ pos more
  pub fits : off + more ≤ 64000
  pub asked : more ≤ size

-- The read of the first node, in front of others.
whole_at :
    (size : ℕ) (b : SBuffer) (h : CirNode) (t : List CirNode) (v : AllReady size b h)
    → request_data size (record b { ring = h ∷ t }) ≡ (
        merge_list (h.last_seq + 1) (t ++ (record h { filled = false } ∷ [])) >>= λ ring'.
        returns
          (bytes_from b.buffer v.off v.more, record b { ring = ring'; dstart = h.last_seq + 1 }))
unfolding request_data
whole_at size b h t v =
    let ready : (h.filled && (h.first_seq == b.dstart)) ≡ true = ground (arith, v) in
    let all : leb_ℤ h.size (pos size) ≡ true = ground (arith, v) in
    rw (ready, all)
      (ap (take_whole (record b { ring = h ∷ t }) h t) v.size_is
        ∙ unfold take_whole in rw reads refl)
  where
    reads : read_packet b.buffer h.dat v.more v.more ≡ returns (bytes_from b.buffer v.off v.more)
    reads =
        ap (λ (z : ℤ). read_packet b.buffer z v.more v.more) v.dat_is
        ∙ read_within b.buffer v.off v.more v.more v.length_is v.fits (omega arith)

no_place :
    (q size : ℕ) (h : CirNode) → h.first_seq ≤ h.last_seq → h.last_seq < q → fill q size h ≡ none
unfolding fill
no_place q size h order beyond = ground arith

-- A hole for numbers that have passed takes no packet.
closed :
    (q size : ℕ) (bytes : List ℕ) (b : SBuffer) (h : CirNode)
    → h.filled ≡ false
    → h.first_seq ≤ h.last_seq
    → h.last_seq < q
    → add_data q size bytes (record b { ring = h ∷ [] }) ≡ returns (0, record b { ring = h ∷ [] })
unfolding add_data merge_list merge_from scan
closed q size bytes b h hole order beyond =
    let new : ((h.first_seq == q) && h.filled) ≡ false = ground arith in
    try_node-none _ _ _ _ (record b { ring = h ∷ [] }) _ _ new (no_place q size h order beyond) refl

-- If a single filled node, which starts at `dstart` and lies within the array, holds all, and
-- `requestData` is asked for at least what it holds, then it returns all, and in the state that it
-- leaves `addData` refuses every packet with a number behind the node's last, whatever its size.
pub request_data-closed :
    (size : ℕ) (b : SBuffer) (h : CirNode) (v : AllReady size b h)
    → b.ring ≡ h ∷ []
    → (b' : SBuffer) × (request_data size b ≡ returns (bytes_from b.buffer v.off v.more, b'))
      × ((q k : ℕ) (bytes : List ℕ) → h.last_seq < q → add_data q k bytes b' ≡ returns (0, b'))
request_data-closed size b h v e = (
  b',
  subst
      (λ (l : List CirNode).
        request_data size (record b { ring = l }) ≡ returns (bytes_from b.buffer v.off v.more, b'))
      (sym e) (whole_at size b h [] v ∙ unfold merge_list merge_from in refl),
  λ q k bytes beyond. closed q k bytes b' (record h { filled = false }) refl v.in_order beyond,
)
  where
    b' : SBuffer
    b' = record b { ring = record h { filled = false } ∷ []; dstart = h.last_seq + 1 }

-- Two holes, of which neither starts at `dstart`, and the second ends in front of it.
module _ (c n : CirNode) (d : ℕ) (e : c.filled ≡ false) (f : n.filled ≡ false)
    (ne : c.first_seq ≢ d) (ne' : n.first_seq ≢ d) (next : n.last_seq + 1 ≡ d) where
  joined_alone : joins (join c n) (join c n) ≡ false
  unfolding joins join
  joined_alone = ground arith

  joined_blends : blends d (join c n) (join c n) ≡ true
  unfolding blends join
  joined_blends = ground arith

  blended : blends d c n ≡ true
  unfolding blends
  blended = ground arith

  blended_blends : blends d (blend c n) (blend c n) ≡ true
  unfolding blends blend
  blended_blends = ground arith

  absorb_two : absorb d (record { front = []; current = c; behind = n ∷ [] }) ≡ endless
  unfolding absorb closes join_all blend_all
  absorb_two = elim (Bool-cases (joins c n)) [
    | inl on ↦ rw (on, joined_alone, joined_blends) refl
    | inr off ↦ rw (off, blended, blended_blends) refl
  ]

  two_holes : merge_list d (c ∷ (n ∷ [])) ≡ endless
  unfolding merge_list merge_from
  two_holes = rw absorb_two refl

-- If the list has two nodes, the first is filled, starts at `dstart` and lies within the array, and
-- `requestData` is asked for at least what it holds, and the second is a hole that does not start
-- where the first ends, then the call never returns.
pub request_data-endless :
    (size : ℕ) (b : SBuffer) (h n : CirNode) (v : AllReady size b h)
    → b.ring ≡ h ∷ (n ∷ [])
    → n.filled ≡ false
    → n.first_seq ≢ h.last_seq + 1
    → request_data size b ≡ endless
request_data-endless size b h n v e hole apart =
    subst (λ (l : List CirNode). request_data size (record b { ring = l }) ≡ endless) (sym e)
      (whole_at size b h (n ∷ []) v
        ∙ rw
            (two_holes n (record h { filled = false }) (h.last_seq + 1) hole refl apart
              (omega (arith, v)) refl)
            refl)
