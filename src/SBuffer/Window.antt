-- ===== src/SBuffer/Window.antt =====
-- `addData` of sbuffer.c in the first window, for packets of a thousand bytes: the buffer is a map
-- from the numbers 1 to 64 to packets, in which the first to arrive stays.
use project.Base.{
  ℕ, ◌+◌, ◌-◌, ◌*◌, ◌%◌, ◌≤◌, ◌<◌, ◌≡◌, ◌≢◌, ◌⊎◌, inl, inr, refl, sym, ap, ◌∙◌, subst, Bool, true,
  false, ◌||◌, List, [], arith, length, ◌==◌, ==_iff, Bool-cases, if◌then◌else◌, Option, some, none,
  take, Option-cases, blit, get_or, length-take, length-blit, get_or-blit_in, get_or-blit_out,
  length-replicate,
}
use native.Mathlib.Decide.{dec_lt, dec_le}
use project.CBuffer.Ring.{ring as bytes_from, length-ring, get_or-ring, ring_ext}
use project.SBuffer.{CirNode, SBuffer, initialize, Run, returns, merge_list, scan, add_data}
use project.SBuffer.Tiles.{Tiles, filled_at, filled_at_below, filled_at_above}
use project.SBuffer.Merging.{Apart, IsMerged, merge_list-IsMerged}
use project.SBuffer.Scan.{Stored, scan-Stored, scan_inside, scan_first}

-- A buffer from which nothing was read yet.
pub record IsWindow (b : SBuffer) : Type 0 where
  pub length_is : length b.buffer ≡ 64000
  pub start_is : b.dstart ≡ 1
  pub tiles : Tiles 1 b.ring 65
  pub apart : Apart b.ring

pub initialize-IsWindow : IsWindow initialize
unfolding initialize
initialize-IsWindow = record {
  length_is = length-replicate 64000 0;
  start_is = refl;
  tiles =
      (record { first_is = refl; some_numbers = omega arith; dat_is = refl; size_is = refl }, refl);
  apart = (tt, tt);
}

-- The map: packet `k`, if it is there.
pub received : SBuffer → ℕ → Option (List ℕ)
received b k = if filled_at k b.ring then some (bytes_from b.buffer ((k - 1) * 1000) 1000) else none

abbrev pub is_some : Option (List ℕ) → Bool
is_some none = false
is_some (some x) = true

pub slice_same :
    (buf bytes : List ℕ) (q : ℕ)
    → length buf ≡ 64000
    → 1 ≤ q
    → q ≤ 64
    → 1000 ≤ length bytes
    → bytes_from (blit buf ((q - 1) * 1000) (take 1000 bytes)) ((q - 1) * 1000) 1000
      ≡ take 1000 bytes
slice_same buf bytes q e lo hi fits =
    let n : length (take 1000 bytes) ≡ 1000 = omega (arith, length-take 1000 bytes) in
    sym (
      ring_ext new ((q - 1) * 1000) 1000 (take 1000 bytes) n λ i p.
        ap (λ (k : ℕ). get_or (take 1000 bytes) k 0) (omega arith)
        ∙ sym (
            get_or-blit_in buf ((q - 1) * 1000) (take 1000 bytes) (((q - 1) * 1000 + i) % 64000) 0
              (omega arith) (omega arith) (omega arith)))
  where
    new : List ℕ
    new = blit buf ((q - 1) * 1000) (take 1000 bytes)

slice_other :
    (buf bytes : List ℕ) (q k : ℕ)
    → 1 ≤ q
    → q ≤ 64
    → 1 ≤ k
    → k ≤ 64
    → k ≢ q
    → bytes_from (blit buf ((q - 1) * 1000) (take 1000 bytes)) ((k - 1) * 1000) 1000
      ≡ bytes_from buf ((k - 1) * 1000) 1000
slice_other buf bytes q k lo hi lo' hi' ne =
    ring_ext buf ((k - 1) * 1000) 1000 _ (length-ring new ((k - 1) * 1000) 1000) λ i p.
      get_or-ring new ((k - 1) * 1000) 1000 i p
      ∙ get_or-blit_out buf ((q - 1) * 1000) (take 1000 bytes) (((k - 1) * 1000 + i) % 64000) 0
          (elim (dec_lt k q) [
            | yes before ↦ inl (omega arith)
            | no behind ↦ inr (omega (arith, length-take 1000 bytes))
          ])
  where
    new : List ℕ
    new = blit buf ((q - 1) * 1000) (take 1000 bytes)

not_eq : (k q : ℕ) → (k == q) ≡ false → k ≢ q
not_eq k q h = ground arith

pub received-some :
    (b : SBuffer) (k : ℕ)
    → filled_at k b.ring ≡ true
    → received b k ≡ some (bytes_from b.buffer ((k - 1) * 1000) 1000)
unfolding received
received-some b k there = rw there refl

pub received-initialize : (k : ℕ) → received initialize k ≡ none
unfolding initialize received filled_at
received-initialize k = ground arith

or_true : (x : Bool) → (x || true) ≡ true
or_true true = refl
or_true false = refl

or_false : (x : Bool) → (x || false) ≡ x
or_false true = refl
or_false false = refl

pub is_some-received : (b : SBuffer) (k : ℕ) → is_some (received b k) ≡ filled_at k b.ring
unfolding received
is_some-received b k = elim (Bool-cases (filled_at k b.ring)) [
  | inl e ↦ rw e refl
  | inr e ↦ rw e refl
]

pub received_there : (b : SBuffer) (k : ℕ) → received b k ≢ none → filled_at k b.ring ≡ true
unfolding received
received_there b k some_packet = elim (Bool-cases (filled_at k b.ring)) [
  | inl e ↦ e
  | inr e ↦ absurd (some_packet (rw e refl))
]

-- What a packet that is stored does to the map.
received-Stored :
    (b b' : SBuffer) (q : ℕ) (bytes : List ℕ) (old : List CirNode)
    → IsWindow b
    → 1 ≤ q
    → q ≤ 64
    → 1000 ≤ length bytes
    → ((j : ℕ) → filled_at j old ≡ filled_at j b.ring)
    → Stored q bytes b old b'
    → (k : ℕ) → received b' k ≡ (if k == q then some (take 1000 bytes) else received b k)
unfolding received
received-Stored b b' q bytes old w lo hi fits same st k = elim (Bool-cases (k == q)) [
  | inl here ↦
      let e : k ≡ q = (==_iff k q).0 here in
      let there : filled_at k b'.ring ≡ true =
        st.packets k ∙ ap (λ (x : Bool). filled_at k old || x) here ∙ or_true (filled_at k old) in
      rw (here, there)
        (ap (λ (x : List ℕ). some x)
          (ap (λ (j : ℕ). bytes_from b'.buffer ((j - 1) * 1000) 1000) e
            ∙ ap (λ (x : List ℕ). bytes_from x ((q - 1) * 1000) 1000) st.buffer_is
            ∙ slice_same b.buffer bytes q w.length_is lo hi fits))
  | inr other ↦
      let as_before : filled_at k b'.ring ≡ filled_at k b.ring =
        st.packets k
        ∙ ap (λ (x : Bool). filled_at k old || x) other
        ∙ or_false (filled_at k old)
        ∙ same k in
      rw (other, as_before)
        (elim (Bool-cases (filled_at k b.ring)) [
          | inr missing ↦ rw missing refl
          | inl there ↦ rw there (
              ap (λ (x : List ℕ). some x)
                (ap (λ (x : List ℕ). bytes_from x ((k - 1) * 1000) 1000) st.buffer_is
                  ∙ slice_other b.buffer bytes q k lo hi (at_least k there) (at_most k there)
                      (not_eq k q other)))
        ])
]
  where
    at_least : (j : ℕ) → filled_at j b.ring ≡ true → 1 ≤ j
    at_least j there = elim (dec_le 1 j) [
      | yes p ↦ p
      | no p ↦ cc (filled_at_below j 1 65 b.ring w.tiles (omega arith))
    ]

    at_most : (j : ℕ) → filled_at j b.ring ≡ true → j ≤ 64
    at_most j there = elim (dec_le j 64) [
      | yes p ↦ p
      | no p ↦ cc (filled_at_above j 1 65 b.ring w.tiles (omega arith))
    ]

received-merged :
    (b : SBuffer) (r : List CirNode)
    → IsMerged b.ring r
    → (k : ℕ) → received (record b { ring = r }) k ≡ received b k
unfolding received
received-merged b r m k = rw (m.packets k) refl

module _ (q : ℕ) (bytes : List ℕ) (b : SBuffer) (w : IsWindow b) (lo : 1 ≤ q) (hi : q ≤ 64) where
  -- `addData` in the first window merges the nodes and goes through them.
  goes_through :
      (r : List CirNode)
      → merge_list 1 b.ring ≡ returns r
      → add_data q 1000 bytes b ≡ scan q 1000 bytes (record b { ring = r }) [] r
  unfolding add_data
  goes_through r e =
      let e' : merge_list b.dstart b.ring ≡ returns r =
        subst (λ (d : ℕ). merge_list d b.ring ≡ returns r) (sym w.start_is) e in
      rw e' refl

  -- If nothing was read yet, a packet of at least 1000 bytes with a number from 1 to 64 that is not
  -- there is accepted: `addData` returns 1, the first 1000 bytes are there under its number, and
  -- every other packet is what it was.
  pub add_data-received :
      1000 ≤ length bytes
      → received b q ≡ none
      → (b' : SBuffer) × (add_data q 1000 bytes b ≡ returns (1, b'))
        × IsWindow b'
        × ((k : ℕ) → received b' k ≡ (if k == q then some (take 1000 bytes) else received b k))
  unfolding received
  add_data-received fits new =
      let (r, merges, m) = merge_list-IsMerged b.ring w.tiles in
      let missing : filled_at q b.ring ≡ false = ground arith in
      let (b', e, st) =
        scan-Stored q bytes (record b { ring = r }) w.start_is lo hi 1 [] r refl m.tiles lo
          (m.packets q ∙ missing) in
      (
        b',
        goes_through r merges ∙ e,
        record {
          length_is =
              ap length st.buffer_is
              ∙ length-blit b.buffer ((q - 1) * 1000) (take 1000 bytes)
              ∙ w.length_is;
          start_is = st.start_is ∙ w.start_is;
          tiles = st.merged.tiles;
          apart = st.merged.apart;
        },
        received-Stored b b' q bytes r w lo hi fits m.packets (record {
          buffer_is = st.buffer_is;
          start_is = st.start_is;
          end_is = st.end_is;
          merged = st.merged;
          packets = st.packets;
        }),
      )

  -- If nothing was read yet, a packet that is there already changes no packet; `addData` returns 1
  -- if the packet in front of it is not there, and 0, as for a packet that it cannot store, if it
  -- is.
  pub add_data_again :
      received b q ≢ none
      → (b' : SBuffer) × (add_data q 1000 bytes b
          ≡ returns ((if is_some (received b (q - 1)) then 0 else 1), b'))
        × IsWindow b'
        × ((k : ℕ) → received b' k ≡ received b k)
  add_data_again old =
      let (r, merges, m) = merge_list-IsMerged b.ring w.tiles in
      let same = received-merged b r m in
      let there = m.packets q ∙ received_there b q old in
      let one : 1 ≤ 1 = omega arith in
      let result : ℕ → Run (ℕ × SBuffer) = λ x. returns (x, record b { ring = r }) in
      (
        record b { ring = r },
        goes_through r merges ∙ elim (Bool-cases (filled_at (q - 1) b.ring)) [
          | inl inside ↦
              scan_inside q bytes (record b { ring = r }) w.start_is lo hi 1 [] r m.tiles m.apart
                one (not_first inside) (m.packets (q - 1) ∙ inside) there
              ∙ ap result (
                  sym (ap (λ (x : Bool). if x then 0 else 1) (is_some-received b (q - 1) ∙ inside)))
          | inr first ↦
              scan_first q bytes (record b { ring = r }) w.start_is lo hi 1 [] r m.tiles one lo
                (m.packets (q - 1) ∙ first) there
              ∙ ap result
                  (sym (ap (λ (x : Bool). if x then 0 else 1) (is_some-received b (q - 1) ∙ first)))
        ],
        record { length_is = w.length_is; start_is = w.start_is; tiles = m.tiles; apart = m.apart },
        same,
      )
    where
      not_first : filled_at (q - 1) b.ring ≡ true → 1 < q
      not_first inside = elim (dec_lt 1 q) [
        | yes p ↦ p
        | no p ↦ cc (filled_at_below (q - 1) 1 65 b.ring w.tiles (omega arith))
      ]

pub received-cases : (b : SBuffer) (k : ℕ) → (received b k ≡ none) ⊎ (received b k ≢ none)
received-cases b k = elim (Option-cases (received b k)) [
  | inl missing ↦ inl missing
  | inr (x, there) ↦ inr (λ e. cc)
]
