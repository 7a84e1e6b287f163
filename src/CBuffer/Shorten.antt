-- ===== src/CBuffer/Shorten.antt =====
-- The first loop of `checkWindow` of cbuffer.c, which frees the acknowledged packets at the front.
use project.Base.{
  ℕ, ◌+◌, ◌%◌, ◌≤◌, ◌<◌, ◌≡◌, refl, ◌⊎◌, inl, inr, Bool, true, List, [], ◌∷◌, arith, length, ◌==◌,
  if◌then◌else◌, Bool-cases,
}
use project.CBuffer.{PackNode, free_acked}
use project.CBuffer.Chain.{Chain, total, HeadWaits, Chain-eq}

-- The bytes and the number of the packets that `checkWindow` frees.
abbrev pub freed : List PackNode → ℕ
freed [] = 0
freed (n ∷ r) = if n.ack == 2 then n.size + freed r else 0

abbrev pub freed_count : List PackNode → ℕ
freed_count [] = 0
freed_count (n ∷ r) = if n.ack == 2 then 1 + freed_count r else 0

pub record Shortened (s q : ℕ) (e : Bool) (ns : List PackNode) (out : ℕ × Bool × List PackNode)
    : Type 0 where
  pub start : out.0 ≡ (s + freed ns) % 64000
  pub bytes : total out.2 + freed ns ≡ total ns
  pub count : length out.2 + freed_count ns ≡ length ns
  pub chain : Chain out.0 (q + freed_count ns) out.2
  pub waits : HeadWaits out.2
  pub flag :
      ((out.1 ≡ e) × ((freed ns ≡ 0) ⊎ (1 ≤ total out.2)))
      ⊎ ((out.1 ≡ true) × (out.2 ≡ []) × (1 ≤ freed ns))

-- One freed packet more in front.
Shortened-cons :
    (s q : ℕ) (e : Bool) (n m : PackNode) (r : List PackNode) (out : ℕ × Bool × List PackNode)
    → (n.ack == 2) ≡ true
    → 1 ≤ m.size
    → Shortened ((s + n.size) % 64000) (q + 1) e (m ∷ r) out
    → Shortened s q e (n ∷ (m ∷ r)) out
Shortened-cons s q e n m r out p pos v = record {
  start = rw p (omega (arith, v.start));
  bytes = rw p (omega (arith, v.bytes));
  count = rw p (omega (arith, v.count));
  chain = rw p (Chain-eq _ _ _ _ out.2 refl (omega arith) v.chain);
  waits = v.waits;
  flag = elim v.flag [
    | inl f ↦ inl (f.0, inr (elim f.1 [ inl z ↦ omega (arith, v.bytes) | inr k ↦ k ]))
    | inr f ↦ inr (f.0, f.1, rw p (omega (arith, f.2)))
  ];
}

pub free_acked-Shortened :
    (s q : ℕ) (e : Bool) (ns : List PackNode)
    → s < 64000
    → Chain s q ns
    → Shortened s q e ns (free_acked s e ns)
unfolding free_acked
free_acked-Shortened s q e [] h c = ground arith
free_acked-Shortened s q e (n ∷ []) h c = ground arith
free_acked-Shortened s q e (n ∷ (m ∷ r)) h c = elim (Bool-cases (n.ack == 2)) [
  | inl p ↦ rw p (
      Shortened-cons s q e n m r _ p c.4.1 (
        free_acked-Shortened ((s + n.size) % 64000) (q + 1) e (m ∷ r) (omega arith)
          (Chain-eq _ _ _ _ (m ∷ r) (omega arith) refl c.4)))
  | inr p ↦ rw p (record {
    start = rw p (omega arith);
    bytes = rw p (omega arith);
    count = rw p (omega arith);
    chain = rw p (Chain-eq s s q (q + 0) (n ∷ (m ∷ r)) refl (omega arith) c);
    waits = λ e'. ground arith;
    flag = rw p (inl (refl, inl refl));
  })
]
