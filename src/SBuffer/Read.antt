-- ===== src/SBuffer/Read.antt =====
-- What `requestData` of sbuffer.c gives back of the packets that came in.
use project.Base.{
  ℕ, zero, suc, ◌+◌, ◌-◌, ◌*◌, ◌≤◌, ◌<◌, ◌≡◌, refl, sym, ap, ap₂, ◌∙◌, subst, true, false, ◌&&◌,
  List, [], ◌∷◌, ◌++◌, arith, length, ◌==◌, All, Option, some, none, take, drop, take_front,
  drop_front, ge→ltb,
}
use native.Mathlib.Decide.{dec_le}
use project.Int.{ℤ, pos, ◌+ℤ◌, ◌-ℤ◌, leb_ℤ, int_laws}
use project.CBuffer.Ring.{ring as bytes_from, length-ring, ring-add, ring_slice}
use project.SBuffer.{
  CirNode, SBuffer, initialize, Run, returns, ◌>>=◌, read_packet, take_part, request_data,
}
use project.SBuffer.Tiles.{Tiles, Tiles-le, filled_at}
use project.SBuffer.Merging.{Apart}
use project.SBuffer.Scan.{covered, in_rest, not_next}
use project.SBuffer.Window.{
  IsWindow, initialize-IsWindow, received, received-some, received-initialize, is_some,
  is_some-received,
}
use project.SBuffer.Deliver.{deliver, first_of, or_else, IsPacket, deliver-received}

-- A buffer of which the first `off` bytes were read, with the packets 1 to `n` there.
pub record IsReading (off n : ℕ) (b : SBuffer) : Type 0 where
  pub length_is : length b.buffer ≡ 64000
  pub head : CirNode
  pub rest : List CirNode
  pub ring_is : b.ring ≡ head ∷ rest
  pub first_is : (head.filled && (head.first_seq == b.dstart)) ≡ true
  pub more : ℕ
  pub dat_is : head.dat ≡ pos off
  pub size_is : head.size ≡ pos more
  pub enough : n * 1000 ≤ off + more
  pub fits : off + more ≤ 64000

window-IsReading :
    (n : ℕ) (b : SBuffer)
    → IsWindow b
    → 1 ≤ n
    → ((k : ℕ) → 1 ≤ k → k ≤ n → filled_at k b.ring ≡ true)
    → IsReading 0 n b
window-IsReading n b w lo there = by_ring b.ring refl
  where
    by_ring : (l : List CirNode) → b.ring ≡ l → IsReading 0 n b
    by_ring [] e =
        let t = subst (λ (l : List CirNode). Tiles 1 l 65) e w.tiles in absurd (omega arith)
    by_ring (h ∷ r) e =
        let t = subst (λ (l : List CirNode). Tiles 1 l 65) e w.tiles in
        let a = subst Apart e w.apart in
        let here : (k : ℕ) → 1 ≤ k → k ≤ n → filled_at k (h ∷ r) ≡ true =
          subst (λ (l : List CirNode). (k : ℕ) → 1 ≤ k → k ≤ n → filled_at k l ≡ true) e there in
        let full = covered h r 1 t.1 (here 1 (omega arith) lo) (omega (arith, t.0)) in
        let reaches : n ≤ h.last_seq = elim (dec_le n h.last_seq) [
          | yes p ↦ p
          | no p ↦ absurd (
              not_next h r full t.1 a.0 (
                in_rest h r (h.last_seq + 1) (omega arith)
                  (here (h.last_seq + 1) (omega arith) (omega arith))))
        ] in
        record {
          length_is = w.length_is;
          head = h;
          rest = r;
          ring_is = e;
          first_is = ground (arith, t.0, w.start_is);
          more = h.last_seq * 1000;
          dat_is = t.0.dat_is;
          size_is = t.0.size_is ∙ ap pos (omega arith);
          enough = omega arith;
          fits = omega (arith, Tiles-le (h.last_seq + 1) r 65 t.1);
        }

pub read_within :
    (buf : List ℕ) (off more size : ℕ)
    → length buf ≡ 64000
    → off + more ≤ 64000
    → size ≤ more
    → read_packet buf (pos off) more size ≡ returns (bytes_from buf off size)
unfolding read_packet
read_within buf off more size e fits h =
    rw (ge→ltb 64000 (more + off) (omega arith))
      (ap (λ (x : List ℕ). returns x) (ring_slice buf off size e (omega arith)))

-- A read of less than what is there.
request_at :
    (size off more : ℕ) (b : SBuffer) (h : CirNode) (t : List CirNode)
    → length b.buffer ≡ 64000
    → (h.filled && (h.first_seq == b.dstart)) ≡ true
    → h.dat ≡ pos off
    → h.size ≡ pos more
    → size < more
    → off + more ≤ 64000
    → request_data size (record b { ring = h ∷ t })
      ≡ returns (
        bytes_from b.buffer off size,
        record b { ring = record h { dat = h.dat +ℤ pos size; size = pos more -ℤ pos size } ∷ t },
      )
unfolding request_data
request_at size off more b h t e first d s less fits =
    let smaller : leb_ℤ h.size (pos size) ≡ false = ground arith in
    rw (first, smaller)
      (ap (take_part size (record b { ring = h ∷ t }) h t) s ∙ unfold take_part in rw reads refl)
  where
    reads : read_packet b.buffer h.dat more size ≡ returns (bytes_from b.buffer off size)
    reads =
        ap (λ (z : ℤ). read_packet b.buffer z more size) d
        ∙ read_within b.buffer off more size e fits (omega arith)

less_is : (more size : ℕ) → size < more → pos more -ℤ pos size ≡ pos (more - size)
less_is more size h = omega int_laws

-- A request for less than what is there of the packets 1 to `n` returns the next bytes.
request_data-IsReading :
    (size off n : ℕ) (b : SBuffer)
    → IsReading off n b
    → off + size < n * 1000
    → (b' : SBuffer) × (request_data size b ≡ returns (bytes_from b.buffer off size, b'))
      × (b'.buffer ≡ b.buffer)
      × IsReading (off + size) n b'
request_data-IsReading size off n b v less = (
  after v.rest,
  subst
      (λ (l : List CirNode).
        request_data size (record b { ring = l })
        ≡ returns (bytes_from b.buffer off size, after v.rest))
      (sym v.ring_is)
      (request_at size off v.more b v.head v.rest v.length_is v.first_is v.dat_is v.size_is
        (omega (arith, v)) v.fits),
  refl,
  record {
    length_is = v.length_is;
    head = part;
    rest = v.rest;
    ring_is = refl;
    first_is = v.first_is;
    more = v.more - size;
    dat_is = rw v.dat_is (omega int_laws);
    size_is = less_is v.more size (omega (arith, v));
    enough = omega (arith, v);
    fits = omega (arith, v);
  },
)
  where
    part : CirNode
    part = record v.head { dat = v.head.dat +ℤ pos size; size = pos v.more -ℤ pos size }

    after : List CirNode → SBuffer
    after t = record b { ring = part ∷ t }

-- Requests of these sizes, one after the other.
unfoldable pub requests : List ℕ → SBuffer → Run (List (List ℕ) × SBuffer)
requests [] b = returns ([], b)
requests (size ∷ r) b =
    request_data size b >>= λ o. requests r o.1 >>= λ o'. returns (o.0 ∷ o'.0, o'.1)

-- A stream cut into pieces of these sizes.
pub cut : List ℕ → List ℕ → List (List ℕ)
cut [] stream = []
cut (size ∷ r) stream = take size stream ∷ cut r (drop size stream)

abbrev pub sum : List ℕ → ℕ
sum [] = 0
sum (size ∷ r) = size + sum r

requests-cut :
    (sizes : List ℕ) (off k n : ℕ) (b : SBuffer)
    → IsReading off n b
    → sum sizes < k
    → off + k ≤ n * 1000
    → (b' : SBuffer) × (requests sizes b ≡ returns (cut sizes (bytes_from b.buffer off k), b'))
unfolding requests cut
requests-cut [] off k n b v less fits = (b, refl)
requests-cut (size ∷ r) off k n b v less fits =
    let (c, e, same, w) = request_data-IsReading size off n b v (omega arith) in
    let (b', e') = requests-cut r (off + size) (k - size) n c w (omega arith) (omega arith) in
    let split : bytes_from b.buffer off k
        ≡ bytes_from b.buffer off size ++ bytes_from b.buffer (off + size) (k - size) =
      ap (bytes_from b.buffer off) (omega arith) ∙ ring-add b.buffer off size (k - size) in
    let first =
      take_front size _ (bytes_from b.buffer (off + size) (k - size))
        (length-ring b.buffer off size) in
    let later =
      drop_front size _ (bytes_from b.buffer (off + size) (k - size))
        (length-ring b.buffer off size) in
    (b', rw (e, e', split, first, later, same) refl)

abbrev pub payload : Option (List ℕ) → List ℕ
payload none = []
payload (some bytes) = bytes

-- The packets 1 to `n`, one behind the other.
unfoldable pub stream : List (ℕ × List ℕ) → ℕ → List ℕ
stream ps zero = []
stream ps (suc n) = stream ps n ++ payload (first_of ps (suc n))

pub stream_ext :
    (ps qs : List (ℕ × List ℕ)) (n : ℕ)
    → ((k : ℕ) → first_of ps k ≡ first_of qs k)
    → stream ps n ≡ stream qs n
unfolding stream
stream_ext ps qs zero same = refl
stream_ext ps qs (suc n) same = ap₂ ◌++◌ (stream_ext ps qs n same) (ap payload (same (suc n)))

bytes_from-stream :
    (ps : List (ℕ × List ℕ)) (n : ℕ) (b : SBuffer)
    → ((k : ℕ) → received b k ≡ first_of ps k)
    → ((k : ℕ) → 1 ≤ k → k ≤ n → filled_at k b.ring ≡ true)
    → bytes_from b.buffer 0 (n * 1000) ≡ stream ps n
unfolding stream
bytes_from-stream ps zero b same there = refl
bytes_from-stream ps (suc n) b same there =
    let here = there (suc n) (omega arith) (omega arith) in
    let packet = sym (received-some b (suc n) here) ∙ same (suc n) in
    ap (bytes_from b.buffer 0) (omega arith)
    ∙ ring-add b.buffer 0 (n * 1000) 1000
    ∙ ap₂ ◌++◌ (bytes_from-stream ps n b same (λ k lo hi. there k lo (omega arith)))
        (ap (λ (j : ℕ). bytes_from b.buffer j 1000) (omega arith) ∙ ap payload packet)

-- Packets of at least 1000 bytes with numbers from 1 to 64 are handed to `addData` in any order and
-- as often as may be; if the packets 1 to `n` are among them, with `n` at least 1, then requests
-- for less than their n * 1000 bytes in all return these bytes in order, cut into the sizes asked
-- for, and no call faults or hangs.
pub deliver-requests :
    (ps : List (ℕ × List ℕ)) (n : ℕ) (sizes : List ℕ)
    → All IsPacket ps
    → 1 ≤ n
    → ((k : ℕ) → 1 ≤ k → k ≤ n → is_some (first_of ps k) ≡ true)
    → sum sizes < n * 1000
    → (b' : SBuffer) × ((deliver ps initialize >>= λ b. requests sizes b)
        ≡ returns (cut sizes (stream ps n), b'))
deliver-requests ps n sizes all lo there less =
    let (b, e, w, map) = deliver-received ps initialize initialize-IsWindow all in
    let same : (k : ℕ) → received b k ≡ first_of ps k = λ k.
      map k ∙ ap (λ (o : Option (List ℕ)). or_else o (first_of ps k)) (received-initialize k) in
    let filled : (k : ℕ) → 1 ≤ k → k ≤ n → filled_at k b.ring ≡ true =
      λ k p q. sym (is_some-received b k) ∙ ap is_some (same k) ∙ there k p q in
    let (b', e') =
      requests-cut sizes 0 (n * 1000) n b (window-IsReading n b w lo filled) less (omega arith) in
    (
      b',
      rw e (
          e'
          ∙ ap (λ (l : List ℕ). returns (cut sizes l, b')) (bytes_from-stream ps n b same filled)),
    )
