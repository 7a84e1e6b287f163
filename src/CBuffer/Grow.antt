-- ===== src/CBuffer/Grow.antt =====
-- The last loops of `checkWindow` of cbuffer.c, which extend the packet list over the window.
use project.Base.{
  ℕ, zero, suc, ◌+◌, ◌-◌, ◌%◌, ◌≤◌, ◌<◌, ◌≡◌, refl, ◌∙◌, inl, inr, List, [], ◌∷◌, ◌++◌, arith,
  length, length-append, ltb, Bool-cases, ltb→lt, ltb→ge,
}
use project.CBuffer.{PackNode, min, new_pack_node, grow, cover, fill}
use project.CBuffer.Chain.{Chain, total, HeadWaits, Chain-eq, Chain-append, total-append}

-- The node that the walk of `checkWindow` ends at.
abbrev pub last : PackNode → List PackNode → PackNode
last n [] = n
last n (m ∷ r) = last m r

pub last_end :
    (s q : ℕ) (n : PackNode) (r : List PackNode)
    → Chain s q (n ∷ r)
    → ((last n r).dat + (last n r).size) % 64000 ≡ (s + total (n ∷ r)) % 64000
last_end s q n [] c = omega arith
last_end s q n (m ∷ r) c = last_end (s + n.size) (q + 1) m r c.4 ∙ omega arith

pub record Grown (s q dist : ℕ) (out : List PackNode × ℕ) : Type 0 where
  pub chain : Chain s q out.0
  pub bytes : total out.0 ≡ dist
  pub next : out.1 ≡ q + length out.0

pub min_bounds :
    (dist : ℕ) → (min 1000 dist ≤ 1000) × (min 1000 dist ≤ dist) × (0 < dist → 1 ≤ min 1000 dist)
min_bounds dist = (ground arith, ground arith, λ h. ground arith)

-- A packet in front of a list that starts where it ends.
pub Grown-cons :
    (s q dat size dist : ℕ) (out : List PackNode × ℕ)
    → dat ≡ s % 64000
    → 1 ≤ size
    → size ≤ 1000
    → size ≤ dist
    → Grown (dat + size) (q + 1) (dist - size) out
    → Grown s q dist (new_pack_node dat size q ∷ out.0, out.1)
Grown-cons s q dat size dist out e lo hi fits v = record {
  chain = (e, lo, hi, refl, Chain-eq _ _ _ _ out.0 (omega arith) refl v.chain);
  bytes = omega (arith, v.bytes);
  next = omega (arith, v.next);
}

pub grow-Grown :
    (fuel : ℕ) (n : PackNode) (dist q : ℕ)
    → dist ≤ fuel
    → Grown (n.dat + n.size) q dist (grow fuel n dist q)
unfolding grow
grow-Grown zero n dist q h = ground arith
grow-Grown (suc fuel) n dist q h = elim (Bool-cases (ltb 0 dist)) [
  | inl p ↦
      let node = new_pack_node ((n.dat + n.size) % 64000) (min 1000 dist) q in
      let pos : 0 < dist = ltb→lt _ _ p in
      let size = min_bounds dist in
      rw (p, grow)
        (Grown-cons (n.dat + n.size) q _ (min 1000 dist) dist _ refl (size.2 pos) size.0 size.1
          (grow-Grown fuel node (dist - min 1000 dist) (q + 1) (omega (arith, size.2 pos))))
  | inr p ↦
      let none_left = ltb→ge _ _ p in
      rw (p, grow) (record { chain = tt; bytes = omega arith; next = omega arith })
]

pub cover_lem :
    (dist q : ℕ) (n : PackNode) (r : List PackNode)
    → cover dist q n r ≡ (
      (n ∷ r) ++ (grow (dist - total (n ∷ r)) (last n r) (dist - total (n ∷ r)) q).0,
      (grow (dist - total (n ∷ r)) (last n r) (dist - total (n ∷ r)) q).1,
    )
unfolding cover
cover_lem dist q n [] = let e : n.size + 0 ≡ n.size = omega arith in rw e
cover_lem dist q n (m ∷ r) =
    let e : dist - (n.size + total (m ∷ r)) ≡ dist - n.size - total (m ∷ r) = omega arith in
    rw (e, cover_lem (dist - n.size) q m r)

-- Packets that cover no more than the distance are kept, and what they leave is covered behind them.
pub cover-Grown :
    (s q dist packseq : ℕ) (n : PackNode) (r : List PackNode)
    → Chain s q (n ∷ r)
    → total (n ∷ r) ≤ dist
    → packseq ≡ q + length (n ∷ r)
    → Grown s q dist (cover dist packseq n r)
cover-Grown s q dist packseq n r c fits e = rw cover_lem (record {
  chain = Chain-append s q (n ∷ r) _ c (Chain-eq _ _ _ _ _ (last_end s q n r c) e more.chain);
  bytes = omega (arith, total-append (n ∷ r) extra, more.bytes);
  next = omega (arith, length-append (n ∷ r) extra, more.next);
})
  where
    left : ℕ
    left = dist - total (n ∷ r)

    extra : List PackNode
    extra = (grow left (last n r) left packseq).0

    more : Grown ((last n r).dat + (last n r).size) packseq left (grow left (last n r) left packseq)
    more = grow-Grown left (last n r) left packseq (omega arith)

pub fill-Grown :
    (s q dist packseq : ℕ) (ns : List PackNode)
    → s < 64000
    → 0 < dist
    → Chain s q ns
    → total ns ≤ dist
    → packseq ≡ q + length ns
    → Grown s q dist (fill dist s packseq ns)
unfolding fill
fill-Grown s q dist packseq [] lo pos c fits e =
    let at : q ≡ packseq = omega arith in
    let size = min_bounds dist in
    let node = new_pack_node s (min 1000 dist) packseq in
    rw at (
      Grown-cons s packseq s (min 1000 dist) dist _ (omega arith) (size.2 pos) size.0 size.1
        (grow-Grown (dist - min 1000 dist) node (dist - min 1000 dist) (packseq + 1) (omega arith)))
fill-Grown s q dist packseq (n ∷ r) lo pos c fits e = cover-Grown s q dist packseq n r c fits e

pub fill-HeadWaits :
    (s dist packseq : ℕ) (ns : List PackNode) → HeadWaits ns → HeadWaits (fill dist s packseq ns).0
unfolding fill
fill-HeadWaits s dist packseq [] w = omega arith
fill-HeadWaits s dist packseq (n ∷ r) w = rw cover_lem w
