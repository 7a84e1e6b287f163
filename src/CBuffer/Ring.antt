-- ===== src/CBuffer/Ring.antt =====
-- The bytes that the buffer of cbuffer.c holds, oldest first, and what `addData` does to them.
use project.Base.{
  ℕ, zero, suc, ◌+◌, ◌-◌, ◌%◌, ◌≤◌, ◌<◌, ◌≡◌, refl, sym, ap, ap₂, ◌∙◌, ◌⊎◌, inl, inr, List, [], ◌∷◌,
  ◌++◌, arith, length, get_or, take, drop, blit, length-take, length-drop, length-blit,
  get_or-blit_in, get_or-blit_out, get_or-take, get_or-drop, get_or_ext, leb, ltb, Bool-cases,
  leb→le, leb→gt, ltb→lt, ltb→ge,
}
use native.Mathlib.Decide.{dec_lt, dec_le}
use project.CBuffer.{Buffer, PackNode, initialize, space_left, write_data, packet_bytes}
use project.CBuffer.Space.{InRange, used}

-- `n` bytes from position `s` on, going round at 64000.
abbrev pub ring : List ℕ → ℕ → ℕ → List ℕ
ring buf s zero = []
ring buf s (suc n) = get_or buf (s % 64000) 0 ∷ ring buf (s + 1) n

pub length-ring : (buf : List ℕ) (s n : ℕ) → length (ring buf s n) ≡ n
length-ring buf s zero = refl
length-ring buf s (suc n) = ap suc (length-ring buf (s + 1) n)

pub get_or-ring :
    (buf : List ℕ) (s n i : ℕ) → i < n → get_or (ring buf s n) i 0 ≡ get_or buf ((s + i) % 64000) 0
get_or-ring buf s zero i h = absurd (omega arith)
get_or-ring buf s (suc n) zero h = ap (λ (t : ℕ). get_or buf t 0) (omega arith)
get_or-ring buf s (suc n) (suc i) h =
    get_or-ring buf (s + 1) n i (omega arith) ∙ ap (λ (t : ℕ). get_or buf t 0) (omega arith)

-- A list that shows the right byte at each place is the ring.
pub ring_ext :
    (buf : List ℕ) (s n : ℕ) (xs : List ℕ)
    → length xs ≡ n
    → ((i : ℕ) → i < n → get_or xs i 0 ≡ get_or buf ((s + i) % 64000) 0)
    → xs ≡ ring buf s n
ring_ext buf s n xs e h =
    get_or_ext 0 xs (ring buf s n) (e ∙ sym (length-ring buf s n))
      (λ i p. h i (omega arith) ∙ sym (get_or-ring buf s n i (omega arith)))

pub ring-add : (buf : List ℕ) (s m n : ℕ) → ring buf s (m + n) ≡ ring buf s m ++ ring buf (s + m) n
ring-add buf s zero n =
    let e : 0 + n ≡ n = omega arith in let f : s + 0 ≡ s = omega arith in rw (e, f)
ring-add buf s (suc m) n =
    let e : suc m + n ≡ suc (m + n) = omega arith in
    let f : s + suc m ≡ s + 1 + m = omega arith in rw (e, f, ring-add buf (s + 1) m n)

pub ring_round : (buf : List ℕ) (s n : ℕ) → ring buf (s + 64000) n ≡ ring buf s n
ring_round buf s n =
    ring_ext buf s n _ (length-ring buf (s + 64000) n)
      λ i p. get_or-ring buf (s + 64000) n i p ∙ ap (λ (t : ℕ). get_or buf t 0) (omega arith)

-- A stretch that does not pass the end is a slice.
pub ring_slice :
    (buf : List ℕ) (s n : ℕ)
    → length buf ≡ 64000
    → s + n ≤ 64000
    → take n (drop s buf) ≡ ring buf s n
ring_slice buf s n e h =
    ring_ext buf s n (take n (drop s buf))
      (omega (arith, length-take n (drop s buf), length-drop s buf))
      λ i p.
        get_or-take n (drop s buf) i 0 p
        ∙ get_or-drop s buf i 0
        ∙ ap (λ (t : ℕ). get_or buf t 0) (omega arith)

-- The two ends of a stretch that passes the end.
pub ring_wrap :
    (buf : List ℕ) (s n : ℕ)
    → length buf ≡ 64000
    → s ≤ 64000
    → 64000 ≤ s + n
    → n ≤ 64000
    → take (64000 - s) (drop s buf) ++ take (n - (64000 - s)) buf ≡ ring buf s n
ring_wrap buf s n e lo h hi =
    ap₂ ◌++◌ (ring_slice buf s (64000 - s) e (omega arith)) (
      ring_slice buf 0 k e (omega arith)
      ∙ sym (ring_round buf 0 k)
      ∙ ap (λ (t : ℕ). ring buf t k) (omega arith))
    ∙ sym (ring-add buf s (64000 - s) k)
    ∙ ap (ring buf s) (omega arith)
  where
    k : ℕ
    k = n - (64000 - s)

-- The bytes held.
unfoldable pub contents : Buffer → List ℕ
contents b = ring b.cirbuffer b.dstart (used b)

pub contents-initialize : contents initialize ≡ []
unfolding contents used space_left
contents-initialize = refl

-- What a packet's `memcpy`s copy is the ring at its place.
pub packet_bytes-ring :
    (buf : List ℕ) (n : PackNode)
    → length buf ≡ 64000
    → n.dat < 64000
    → n.size ≤ 64000
    → packet_bytes buf n ≡ ring buf n.dat n.size
unfolding packet_bytes
packet_bytes-ring buf n e lo hi = elim (Bool-cases (ltb 64000 (n.size + n.dat))) [
  | inl p ↦
      let q = ltb→lt _ _ p in rw p (ring_wrap buf n.dat n.size e (omega arith) (omega arith) hi)
  | inr p ↦ let q = ltb→ge _ _ p in rw p (ring_slice buf n.dat n.size e (omega arith))
]

-- Where the bytes of an accepted block go.
pub write_data-at :
    (b : Buffer) (bytes : List ℕ) (size i : ℕ)
    → length b.cirbuffer ≡ 64000
    → b.dend ≤ 64000
    → size ≤ 64000
    → size ≤ length bytes
    → i < size
    → get_or (write_data b bytes size).cirbuffer ((b.dend + i) % 64000) 0 ≡ get_or bytes i 0
unfolding write_data
write_data-at b bytes size i e lo hi fits h = elim (Bool-cases (leb size (64000 - b.dend))) [
  | inl p ↦
      let q = leb→le _ _ p in
      let j : (b.dend + i) % 64000 ≡ b.dend + i = omega arith in
      rw (p, j) (first b.cirbuffer size i e h (omega arith) fits)
  | inr p ↦
      let q = leb→gt _ _ p in
      rw p (elim (dec_lt i (64000 - b.dend)) [
        | yes l ↦
            let j : (b.dend + i) % 64000 ≡ b.dend + i = omega arith in
            rw j (
              get_or-blit_out _ 0 _ (b.dend + i) 0 (inr (omega (arith, front_length)))
              ∙ first b.cirbuffer (64000 - b.dend) i e l (omega arith) (omega arith))
        | no l ↦
            let j : (b.dend + i) % 64000 ≡ i - (64000 - b.dend) = omega arith in
            rw j (
              get_or-blit_in _ 0 _ (i - (64000 - b.dend)) 0 (omega arith)
                (omega (arith, front_length))
                (omega (arith, length-blit b.cirbuffer b.dend (take (64000 - b.dend) bytes)))
              ∙ get_or-take (size - (64000 - b.dend)) _ (i - (64000 - b.dend) - 0) 0 (omega arith)
              ∙ get_or-drop (64000 - b.dend) bytes _ 0
              ∙ ap (λ (t : ℕ). get_or bytes t 0) (omega arith))
      ])
]
  where
    front_length :
        length (take (size - (64000 - b.dend)) (drop (64000 - b.dend) bytes))
        ≡ size - (64000 - b.dend)
    front_length = omega (
      arith,
      length-take (size - (64000 - b.dend)) (drop (64000 - b.dend) bytes),
      length-drop (64000 - b.dend) bytes,
    )

    first :
        (buf : List ℕ) (n k : ℕ)
        → length buf ≡ 64000
        → k < n
        → b.dend + n ≤ 64000
        → n ≤ length bytes
        → get_or (blit buf b.dend (take n bytes)) (b.dend + k) 0 ≡ get_or bytes k 0
    first buf n k e' k<n room all =
        get_or-blit_in buf b.dend (take n bytes) (b.dend + k) 0 (omega arith)
          (omega (arith, length-take n bytes)) (omega arith)
        ∙ get_or-take n bytes (b.dend + k - b.dend) 0 (omega arith)
        ∙ ap (λ (t : ℕ). get_or bytes t 0) (omega arith)

pub write_data_elsewhere :
    (b : Buffer) (bytes : List ℕ) (size j : ℕ)
    → b.dend ≤ 64000
    → size ≤ length bytes
    → j < 64000
    → ((b.dend + size ≤ 64000) × ((j < b.dend) ⊎ (b.dend + size ≤ j)))
      ⊎ ((64000 < b.dend + size) × (j < b.dend) × (b.dend + size ≤ j + 64000))
    → get_or (write_data b bytes size).cirbuffer j 0 ≡ get_or b.cirbuffer j 0
unfolding write_data
write_data_elsewhere b bytes size j lo fits h out = elim (Bool-cases (leb size (64000 - b.dend))) [
  | inl p ↦
      let q = leb→le _ _ p in
      let n = length-take size bytes in
      rw p (
        get_or-blit_out b.cirbuffer b.dend (take size bytes) j 0 (elim out [
          | inl o ↦ elim o.1 [ inl l ↦ inl l | inr r ↦ inr (omega arith) ]
          | inr o ↦ absurd (omega arith)
        ]))
  | inr p ↦
      let q = leb→gt _ _ p in
      let m = length-drop (64000 - b.dend) bytes in
      let n = length-take (size - (64000 - b.dend)) (drop (64000 - b.dend) bytes) in
      rw p (elim out [
        | inl o ↦ absurd (omega arith)
        | inr o ↦
            get_or-blit_out _ 0 _ j 0 (inr (omega arith))
            ∙ get_or-blit_out b.cirbuffer b.dend _ j 0 (inl o.1)
      ])
]

-- The write appends the block to the `n` bytes that end at `dend`.
pub write_data-ring :
    (b : Buffer) (bytes : List ℕ) (size n : ℕ)
    → length b.cirbuffer ≡ 64000
    → InRange b
    → (b.dstart + n) % 64000 ≡ b.dend % 64000
    → n + size ≤ 64000
    → size ≤ length bytes
    → ring (write_data b bytes size).cirbuffer b.dstart (n + size)
      ≡ ring b.cirbuffer b.dstart n ++ take size bytes
write_data-ring b bytes size n e v meet room fits =
    ring-add new b.dstart n size ∙ ap₂ ◌++◌ old added
  where
    new : List ℕ
    new = (write_data b bytes size).cirbuffer

    Elsewhere : ℕ → Type 0
    Elsewhere j =
        ((b.dend + size ≤ 64000) × ((j < b.dend) ⊎ (b.dend + size ≤ j)))
        ⊎ ((64000 < b.dend + size) × (j < b.dend) × (b.dend + size ≤ j + 64000))

    elsewhere : (i : ℕ) → i < n → Elsewhere ((b.dstart + i) % 64000)
    elsewhere i p = elim (dec_le (b.dend + size) 64000) [
      | yes l ↦ elim (dec_lt ((b.dstart + i) % 64000) b.dend) [
        | yes f ↦ inl (l, inl f)
        | no f ↦ inl (l, inr (omega (arith, v)))
      ]
      | no l ↦ inr (omega (arith, v), omega (arith, v), omega (arith, v))
    ]

    old : ring new b.dstart n ≡ ring b.cirbuffer b.dstart n
    old = ring_ext b.cirbuffer b.dstart n _ (length-ring new b.dstart n) λ i p.
        get_or-ring new b.dstart n i p
        ∙ write_data_elsewhere b bytes size ((b.dstart + i) % 64000) v.end_in fits (omega arith)
            (elsewhere i p)

    added : ring new (b.dstart + n) size ≡ take size bytes
    added = sym (
        ring_ext new (b.dstart + n) size (take size bytes) (omega (arith, length-take size bytes))
          λ i p.
            get_or-take size bytes i 0 p
            ∙ sym (write_data-at b bytes size i e v.end_in (omega arith) fits p)
            ∙ ap (λ (t : ℕ). get_or new t 0) (omega arith))
