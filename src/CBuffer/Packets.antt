-- ===== src/CBuffer/Packets.antt =====
-- The data of the packets of the window: `requestSize` and `requestData` of cbuffer.c.
use Prim.Native.Nat.{min as lesser}
use project.Base.{
  ℕ, zero, suc, ◌+◌, ◌%◌, ◌≤◌, ◌≡◌, ◌≢◌, refl, sym, ap, ap₂, ◌∙◌, some, List, [], ◌∷◌, ◌++◌, arith,
  length, take, get_or, All,
}
use project.CBuffer.{Buffer, PackNode, packet_bytes, request_size, request_data}
use project.CBuffer.Space.{used}
use project.CBuffer.Ring.{ring, ring-add, packet_bytes-ring, contents}
use project.CBuffer.Chain.{Chain, total}
use project.CBuffer.Invariant.{IsValid}
use project.CBuffer.Add.{ring_start}

-- The data of the packets, one after the other.
pub payloads : List ℕ → List PackNode → List ℕ
payloads buf [] = []
payloads buf (n ∷ r) = packet_bytes buf n ++ payloads buf r

payloads-ring :
    (buf : List ℕ) (s q : ℕ) (ns : List PackNode)
    → length buf ≡ 64000
    → Chain s q ns
    → payloads buf ns ≡ ring buf s (total ns)
unfolding payloads
payloads-ring buf s q [] e c = refl
payloads-ring buf s q (n ∷ r) e c =
    ap₂ ◌++◌
      (packet_bytes-ring buf n e (omega arith) (omega arith)
        ∙ ring_start buf n.dat s n.size (omega arith))
      (payloads-ring buf (s + n.size) (q + 1) r e c.4)
    ∙ sym (ring-add buf s n.size (total r))

pub take-ring : (buf : List ℕ) (s n k : ℕ) → k ≤ n → take k (ring buf s n) ≡ ring buf s k
take-ring buf s n zero h = refl
take-ring buf s zero (suc k) h = absurd (omega arith)
take-ring buf s (suc n) (suc k) h =
    ap (λ (xs : List ℕ). get_or buf (s % 64000) 0 ∷ xs) (take-ring buf (s + 1) n k (omega arith))

-- In a valid buffer the data of the packets, in order, are the first 20000 bytes held, or all of
-- them if there are fewer.
pub payloads-contents :
    (b : Buffer)
    → IsValid b
    → payloads b.cirbuffer b.nodes ≡ take (lesser 20000 (used b)) (contents b)
unfolding contents
payloads-contents b v =
    payloads-ring b.cirbuffer b.dstart _ b.nodes v.sound.whole v.sound.chain
    ∙ ap (ring b.cirbuffer b.dstart) v.covers
    ∙ sym (take-ring b.cirbuffer b.dstart (used b) (lesser 20000 (used b)) (omega arith))

-- The searches of `requestSize` and `requestData` stop at the first packet of the number.
pub request_size_found :
    (pre post : List PackNode) (n : PackNode)
    → All (λ m. m.seqnum ≢ n.seqnum) pre
    → request_size n.seqnum (pre ++ (n ∷ post)) ≡ (n.size, pre ++ (record n { ack = 1 } ∷ post))
unfolding request_size
request_size_found [] post n d = ground arith
request_size_found (m ∷ pre) post n d = ground (arith, request_size_found pre post n d.1)

pub request_data_found :
    (buf : List ℕ) (pre post : List PackNode) (n : PackNode)
    → All (λ m. m.seqnum ≢ n.seqnum) pre
    → request_data buf n.seqnum (pre ++ (n ∷ post))
      ≡ (some (packet_bytes buf n), pre ++ (record n { ack = 1 } ∷ post))
unfolding request_data
request_data_found buf [] post n d = ground arith
request_data_found buf (m ∷ pre) post n d = ground (arith, request_data_found buf pre post n d.1)

-- The numbers in front of a packet are all different from its own.
pub numbers_below :
    (s q : ℕ) (pre post : List PackNode) (n : PackNode)
    → Chain s q (pre ++ (n ∷ post))
    → (n.seqnum ≡ q + length pre) × All (λ m. m.seqnum ≢ n.seqnum) pre
numbers_below s q [] post n c = (omega arith, tt)
numbers_below s q (m ∷ pre) post n c =
    let ih = numbers_below (s + m.size) (q + 1) pre post n c.4 in
    (omega (arith, ih.0), (λ e. omega (arith, ih.0, c.3), ih.1))

-- The mark does not matter to the data.
pub packet_bytes-ack :
    (buf : List ℕ) (n : PackNode) (a : ℕ)
    → packet_bytes buf (record n { ack = a }) ≡ packet_bytes buf n
unfolding packet_bytes
packet_bytes-ack buf n a = refl
