-- ===== src/Sender/Restamp.antt =====
-- The operations of cbuffer.c on a packet list change the `ack` of packets only, so the buffer stays
-- valid.
use project.Base.{
  ℕ, zero, suc, ◌+◌, ◌≡◌, refl, ap, List, [], ◌∷◌, Option, map, arith, length, none, some, ◌==◌,
  Bool-cases, inl, inr,
}
use project.CBuffer.{Buffer, PackNode, request_size, request_data}
use project.CBuffer.Space.{used_eq}
use project.CBuffer.Chain.{Chain, total, HeadWaits}
use project.CBuffer.Invariant.{IsSound, IsValid}
use project.Sender.{set_ack, acknowledge, expire_node}

-- The packets with what was sent and acknowledged forgotten.
abbrev pub blank : List PackNode → List PackNode
blank [] = []
blank (n ∷ r) = record n { ack = 0 } ∷ blank r

abbrev reset : PackNode → List PackNode → List PackNode
reset n r = record n { ack = 0 } ∷ r

length-blank : (ns : List PackNode) → length (blank ns) ≡ length ns
length-blank [] = refl
length-blank (n ∷ r) = omega (arith, length-blank r)

total-blank : (ns : List PackNode) → total (blank ns) ≡ total ns
total-blank [] = refl
total-blank (n ∷ r) = omega (arith, total-blank r)

Chain-blank : (s q : ℕ) (ns : List PackNode) → Chain s q ns → Chain s q (blank ns)
Chain-blank s q [] c = tt
Chain-blank s q (n ∷ r) c = (c.0, c.1, c.2, c.3, Chain-blank (s + n.size) (q + 1) r c.4)

Chain-blank_back : (s q : ℕ) (ns : List PackNode) → Chain s q (blank ns) → Chain s q ns
Chain-blank_back s q [] c = tt
Chain-blank_back s q (n ∷ r) c = (c.0, c.1, c.2, c.3, Chain-blank_back (s + n.size) (q + 1) r c.4)

pub blank-expire : (bsn : ℕ) (ns : List PackNode) → blank (map (expire_node bsn) ns) ≡ blank ns
unfolding expire_node
blank-expire bsn [] = refl
blank-expire bsn (n ∷ r) = ground (arith, blank-expire bsn r)

pub blank-request_size : (num : ℕ) (ns : List PackNode) → blank (request_size num ns).1 ≡ blank ns
unfolding request_size
blank-request_size num [] = refl
blank-request_size num (n ∷ r) = ground (arith, blank-request_size num r)

pub blank-request_data :
    (buf : List ℕ) (num : ℕ) (ns : List PackNode) → blank (request_data buf num ns).1 ≡ blank ns
unfolding request_data
blank-request_data buf num [] = refl
blank-request_data buf num (n ∷ r) = ground (arith, blank-request_data buf num r)

pub blank-set_ack : (a i : ℕ) (ns : List PackNode) → blank (set_ack a i ns) ≡ blank ns
unfolding set_ack
blank-set_ack a i [] = refl
blank-set_ack a zero (n ∷ r) = refl
blank-set_ack a (suc i) (n ∷ r) = ap (reset n) (blank-set_ack a i r)

-- What `acknowledge` returns for a list.
abbrev pub Restamps : List PackNode → Option (List PackNode) → Type 0
Restamps ns none = Unit
Restamps ns (some ns') = blank ns' ≡ blank ns

Restamps-cons :
    (n : PackNode) (r : List PackNode) (o : Option (List PackNode))
    → Restamps r o
    → Restamps (n ∷ r) (elim o [ none ↦ none | some r' ↦ some (n ∷ r') ])
Restamps-cons n r none e = tt
Restamps-cons n r (some r') e = ap (reset n) e

pub acknowledge-Restamps : (num : ℕ) (ns : List PackNode) → Restamps ns (acknowledge num ns)
unfolding acknowledge
acknowledge-Restamps num [] = tt
acknowledge-Restamps num (n ∷ r) = elim (Bool-cases (n.seqnum == num)) [
  | inl found ↦ rw found refl
  | inr other ↦ rw other (Restamps-cons n r (acknowledge num r) (acknowledge-Restamps num r))
]

pub HeadWaits-expire :
    (bsn : ℕ) (ns : List PackNode) → HeadWaits ns → HeadWaits (map (expire_node bsn) ns)
unfolding expire_node
HeadWaits-expire bsn [] w = tt
HeadWaits-expire bsn (n ∷ r) w = ground arith

pub HeadWaits-request_size :
    (num : ℕ) (ns : List PackNode) → HeadWaits ns → HeadWaits (request_size num ns).1
unfolding request_size
HeadWaits-request_size num [] w = tt
HeadWaits-request_size num (n ∷ r) w = ground arith

pub HeadWaits-request_data :
    (buf : List ℕ) (num : ℕ) (ns : List PackNode)
    → HeadWaits ns
    → HeadWaits (request_data buf num ns).1
unfolding request_data
HeadWaits-request_data buf num [] w = tt
HeadWaits-request_data buf num (n ∷ r) w = ground arith

pub HeadWaits-set_ack : (i : ℕ) (ns : List PackNode) → HeadWaits ns → HeadWaits (set_ack 1 i ns)
unfolding set_ack
HeadWaits-set_ack i [] w = tt
HeadWaits-set_ack zero (n ∷ r) w = omega arith
HeadWaits-set_ack (suc i) (n ∷ r) w = w

module _ (b : Buffer) (ns : List PackNode) (same : blank ns ≡ blank b.nodes) where
  count : length ns ≡ length b.nodes
  count = omega (arith, length-blank ns, length-blank b.nodes, ap length same)

  bytes : total ns ≡ total b.nodes
  bytes = omega (arith, total-blank ns, total-blank b.nodes, ap total same)

  pub restamped-IsSound : IsSound b → IsSound (record b { nodes = ns })
  restamped-IsSound v = record {
    range = record { start_in = v.range.start_in; end_in = v.range.end_in };
    whole = v.whole;
    numbered = rw count v.numbered;
    chain = rw count (Chain-blank_back _ _ ns (rw same (Chain-blank _ _ b.nodes v.chain)));
    in_window = rw bytes v.in_window;
    held = rw (bytes, used_eq b (record b { nodes = ns }) refl refl refl) v.held;
  }

  pub restamped-IsValid : HeadWaits ns → IsValid b → IsValid (record b { nodes = ns })
  restamped-IsValid w v = record {
    sound = restamped-IsSound v.sound;
    covers = rw (bytes, used_eq b (record b { nodes = ns }) refl refl refl) v.covers;
    waits = w;
  }
