-- ===== src/CBuffer/Renew.antt =====
-- `checkWindow` of cbuffer.c node by node: which packets it keeps, and that it numbers new ones on.
use project.Base.{
  ℕ, zero, suc, ◌+◌, ◌-◌, ◌%◌, ◌≤◌, ◌<◌, ◌≡◌, refl, ◌∙◌, Bool, List, [], ◌∷◌, ◌++◌, arith, ltb,
  ◌==◌, lt→ltb, if◌then◌else◌, All, All-append, Bool-cases, inl, inr, ==_iff, ge→ltb,
}
use project.CBuffer.{
  Buffer, PackNode, min, new_pack_node, grow, fill, fill_window, free_acked, advance, move_window,
  distance, space_left, check_window,
}
use project.CBuffer.Chain.{total}
use project.CBuffer.Shorten.{freed}
use project.CBuffer.Grow.{last, cover_lem}

-- The bytes of the packets with a number below `limit`.
abbrev pub below : ℕ → List PackNode → ℕ
below limit [] = 0
below limit (n ∷ r) = (if ltb n.seqnum limit then n.size else 0) + below limit r

below-append :
    (limit : ℕ) (xs ys : List PackNode) → below limit (xs ++ ys) ≡ below limit xs + below limit ys
below-append limit [] ys = omega arith
below-append limit (x ∷ xs) ys = omega (arith, below-append limit xs ys)

-- A predicate of packets that new ones with a number from `limit` on have, and that acknowledged ones
-- have only below it.
module _ (limit : ℕ) (P : PackNode → Type 0)
    (fresh : (dat size q : ℕ) → limit ≤ q → P (new_pack_node dat size q))
    (acked : (n : PackNode) → P n → n.ack ≡ 2 → n.seqnum < limit) where
  -- The list `ns` grows to `out`, with `q` the number that comes next.
  record Renews (ns : List PackNode) (out : List PackNode × ℕ) : Type 0 where
    all : All P out.0
    same_below : below limit out.0 ≡ below limit ns
    beyond : limit ≤ out.1

  grow-Renews : (fuel : ℕ) (n : PackNode) (dist q : ℕ) → limit ≤ q → Renews [] (grow fuel n dist q)
  unfolding grow
  grow-Renews zero n dist q h = record { all = tt; same_below = refl; beyond = h }
  grow-Renews (suc fuel) n dist q h = elim (Bool-cases (ltb 0 dist)) [
    | inl p ↦
        let node = new_pack_node ((n.dat + n.size) % 64000) (min 1000 dist) q in
        let v = grow-Renews fuel node (dist - min 1000 dist) (q + 1) (omega arith) in
        rw (p, grow)
          (record {
            all = (fresh ((n.dat + n.size) % 64000) (min 1000 dist) q h, v.all);
            same_below = rw (ge→ltb q limit h) (omega (arith, v.same_below));
            beyond = v.beyond;
          })
    | inr p ↦ rw (p, grow) (record { all = tt; same_below = refl; beyond = h })
  ]

  fill-Renews :
      (dist dstart q : ℕ) (ns : List PackNode)
      → limit ≤ q
      → All P ns
      → Renews ns (fill dist dstart q ns)
  unfolding fill
  fill-Renews dist dstart q [] h p =
      let node = new_pack_node dstart (min 1000 dist) q in
      let v =
        grow-Renews (dist - min 1000 dist) node (dist - min 1000 dist) (q + 1) (omega arith) in
      record {
        all = (fresh dstart (min 1000 dist) q h, v.all);
        same_below = rw (ge→ltb q limit h) (omega (arith, v.same_below));
        beyond = v.beyond;
      }
  fill-Renews dist dstart q (n ∷ r) h p =
      let left = dist - total (n ∷ r) in
      let v = grow-Renews left (last n r) left q h in
      rw (cover_lem dist q n r) (record {
        all = All-append P (n ∷ r) (grow left (last n r) left q).0 p v.all;
        same_below =
            below-append limit (n ∷ r) (grow left (last n r) left q).0
            ∙ omega (arith, v.same_below);
        beyond = v.beyond;
      })

  free_acked-All :
      (s : ℕ) (e : Bool) (ns : List PackNode)
      → All P ns
      → All P (free_acked s e ns).2
        × (below limit (free_acked s e ns).2 + freed ns ≡ below limit ns)
  unfolding free_acked
  free_acked-All s e [] p = (tt, omega arith)
  free_acked-All s e (n ∷ []) p = elim (Bool-cases (n.ack == 2)) [
    | inl a ↦
        let lt = lt→ltb n.seqnum limit (acked n p.0 ((==_iff n.ack 2).0 a)) in
        rw (a, lt) (tt, omega arith)
    | inr a ↦ rw a (p, omega arith)
  ]
  free_acked-All s e (n ∷ (m ∷ r)) p = elim (Bool-cases (n.ack == 2)) [
    | inl a ↦
        let lt = lt→ltb n.seqnum limit (acked n p.0 ((==_iff n.ack 2).0 a)) in
        let (q, b) = free_acked-All ((s + n.size) % 64000) e (m ∷ r) p.1 in
        rw (a, lt) (q, omega (arith, b))
    | inr a ↦ rw a (p, omega arith)
  ]

  -- What `checkWindow` leaves.
  pub record Renewed (b c : Buffer) : Type 0 where
    pub all : All P c.nodes
    pub balance : below limit c.nodes + freed b.nodes ≡ below limit b.nodes
    pub beyond : limit ≤ c.packseq

  pub move_window-nodes :
      (b : Buffer) → ((move_window b).nodes ≡ b.nodes) × ((move_window b).packseq ≡ b.packseq)
  unfolding move_window space_left
  move_window-nodes b = ground arith

  fill_window-Renews :
      (b : Buffer) (dist : ℕ)
      → limit ≤ b.packseq
      → All P b.nodes
      → let c = fill_window b dist in
        All P c.nodes × (below limit c.nodes ≡ below limit b.nodes) × (limit ≤ c.packseq)
  unfolding fill_window
  fill_window-Renews b dist h p = elim (Bool-cases (ltb 0 dist)) [
    | inl more ↦
        let v = fill-Renews dist b.dstart b.packseq b.nodes h p in
        rw more (v.all, v.same_below, v.beyond)
    | inr covered ↦ rw covered (p, refl, h)
  ]

  pub check_window-Renewed :
      (b : Buffer) → limit ≤ b.packseq → All P b.nodes → Renewed b (check_window b)
  unfolding check_window advance
  check_window-Renewed b h p =
      let (kept, bytes) = free_acked-All b.dstart b.is_empty b.nodes p in
      let m = move_window-nodes (advance b) in
      let (all, same, beyond) =
        fill_window-Renews (move_window (advance b)) (distance (move_window (advance b))) (rw m.1 h)
          (rw m.0 kept) in
      record { all = all; balance = rw (same, m.0) bytes; beyond = beyond }
