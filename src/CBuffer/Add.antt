-- ===== src/CBuffer/Add.antt =====
-- `addData` of cbuffer.c against a bounded queue of bytes.
use project.Base.{
  ℕ, zero, suc, ◌+◌, ◌-◌, ◌%◌, ◌≤◌, ◌<◌, ◌≡◌, refl, sym, ap, ap₂, ◌∙◌, ◌⊎◌, inl, true, false, List,
  [], ◌∷◌, ◌++◌, arith, length, leb, get_or, blit, take, drop, length-blit, length-take, gt→leb,
  le→leb, if◌then◌else◌,
}
use native.Mathlib.Decide.{dec_le}
use project.CBuffer.{Buffer, PackNode, space_left, write_data, check_window, add_data}
use project.CBuffer.Space.{
  InRange, used, used_cases, space_left-used, SameData, space_left-SameData,
}
use project.CBuffer.Ring.{ring, ring_ext, length-ring, get_or-ring, contents, write_data-ring}
use project.CBuffer.Chain.{HeadWaits}
use project.CBuffer.Shorten.{freed}
use project.CBuffer.Invariant.{
  IsSound, IsValid, SameData-IsSound, Moved, check_window-Moved, check_window-IsValid, used-advance,
}

-- A list whose first packet waits gives up nothing.
pub freed_of_waits : (ns : List PackNode) → HeadWaits ns → freed ns ≡ 0
freed_of_waits [] w = refl
freed_of_waits (n ∷ r) w = ground arith

pub ring_start : (buf : List ℕ) (s s' n : ℕ) → s % 64000 ≡ s' % 64000 → ring buf s n ≡ ring buf s' n
ring_start buf s s' n e =
    ring_ext buf s' n _ (length-ring buf s n)
      λ i p. get_or-ring buf s n i p ∙ ap (λ (t : ℕ). get_or buf t 0) (omega arith)

drop-ring : (buf : List ℕ) (s n k : ℕ) → k ≤ n → drop k (ring buf s n) ≡ ring buf (s + k) (n - k)
drop-ring buf s n zero h =
    let e : s + 0 ≡ s = omega arith in let f : n - 0 ≡ n = omega arith in rw (e, f)
drop-ring buf s zero (suc k) h = absurd (omega arith)
drop-ring buf s (suc n) (suc k) h =
    let e : s + suc k ≡ s + 1 + k = omega arith in
    let f : suc n - suc k ≡ n - k = omega arith in
    rw (e, f) (drop-ring buf (s + 1) n k (omega arith))

-- On a sound buffer `checkWindow` takes the bytes of the freed packets off the front of what is
-- held, unless these are all that is held and end at the very end of the array.
pub contents-check_window :
    (b : Buffer)
    → IsSound b
    → (freed b.nodes ≡ 0) ⊎ (freed b.nodes < used b) ⊎ (b.dend < 64000)
    → contents (check_window b) ≡ drop (freed b.nodes) (contents b)
unfolding contents
contents-check_window b v h =
    ap₂ (λ (xs : List ℕ) (t : ℕ). ring xs (check_window b).dstart t) m.cirbuffer_kept
      (m.used_moved ∙ omega (arith, used-advance b v h))
    ∙ ring_start b.cirbuffer _ _ (used b - freed b.nodes) (omega (arith, m.start_moved))
    ∙ sym (
        drop-ring b.cirbuffer b.dstart (used b) (freed b.nodes) (omega (arith, used-advance b v h)))
  where
    m : Moved b (check_window b)
    m = check_window-Moved b v

-- On a valid buffer it changes nothing that is held.
pub contents-check_window_waits :
    (b : Buffer) → IsSound b → HeadWaits b.nodes → contents (check_window b) ≡ contents b
contents-check_window_waits b v w =
    let e = freed_of_waits b.nodes w in
    contents-check_window b v (inl e) ∙ ap (λ (t : ℕ). drop t (contents b)) e

pub SameData-contents : (b c : Buffer) → SameData b c → contents c ≡ contents b
unfolding contents
SameData-contents b c same = rw (same.used_same, same.cirbuffer_same, same.dstart_same)

-- The block written, as `addData` hands it to `checkWindow`.
abbrev pub written : Buffer → List ℕ → ℕ → Buffer
written b bytes size = record (write_data b bytes size) { is_empty = false }

pub used-written :
    (b : Buffer) (bytes : List ℕ) (size : ℕ)
    → InRange b
    → used b + size ≤ 64000
    → 0 < size
    → used (written b bytes size) ≡ used b + size
unfolding used space_left write_data
used-written b bytes size v room pos = ground arith

pub write_data_fields :
    (b : Buffer) (bytes : List ℕ) (size : ℕ)
    → InRange b
    → size ≤ 64000
    → let c = write_data b bytes size in
      (c.dstart ≡ b.dstart)
      × (c.nodes ≡ b.nodes)
      × (c.packseq ≡ b.packseq)
      × (c.dend ≤ 64000)
      × (length c.cirbuffer ≡ length b.cirbuffer)
unfolding write_data
write_data_fields b bytes size v fits = ground (
  arith,
  length-blit b.cirbuffer b.dend (take size bytes),
  length-blit b.cirbuffer b.dend (take (64000 - b.dend) bytes),
  length-blit (blit b.cirbuffer b.dend (take (64000 - b.dend) bytes)) 0
      (take (size - (64000 - b.dend)) (drop (64000 - b.dend) bytes)),
)

module _ (b : Buffer) (v : IsSound b) (bytes : List ℕ) (size : ℕ) (pos : 0 < size)
    (fits : size ≤ length bytes) (room : used b + size ≤ 64000) where
  fields :
      let c = write_data b bytes size in
      (c.dstart ≡ b.dstart)
      × (c.nodes ≡ b.nodes)
      × (c.packseq ≡ b.packseq)
      × (c.dend ≤ 64000)
      × (length c.cirbuffer ≡ length b.cirbuffer)
  fields = write_data_fields b bytes size v.range (omega arith)

  pub written-IsSound : IsSound (written b bytes size)
  written-IsSound = record {
    range = record { start_in = rw fields.0 v.range.start_in; end_in = fields.3 };
    whole = fields.4 ∙ v.whole;
    numbered = rw (fields.1, fields.2) v.numbered;
    chain = rw (fields.0, fields.1, fields.2) v.chain;
    in_window = rw fields.1 v.in_window;
    held = rw (used-written b bytes size v.range room pos) (rw fields.1 (omega (arith, v.held)));
  }

  contents-written : contents (written b bytes size) ≡ contents b ++ take size bytes
  unfolding contents
  contents-written =
      ap₂ (λ (s t : ℕ). ring (write_data b bytes size).cirbuffer s t) fields.0
        (used-written b bytes size v.range room pos)
      ∙ write_data-ring b bytes size (used b) v.whole v.range (omega (arith, used_cases b v.range))
          room fits

length-take_le : (n : ℕ) (xs : List ℕ) → n ≤ length xs → length (take n xs) ≡ n
length-take_le n xs h = omega (arith, length-take n xs)

-- A bounded queue of bytes: a block is taken whole or not at all.
unfoldable pub push_block : List ℕ → List ℕ → ℕ × List ℕ
push_block q xs = if leb (length xs) (64000 - length q) then (1, q ++ xs) else (0, q)

-- `addData` where there is room.
pub add_data_accepts :
    (b : Buffer) (bytes : List ℕ) (size : ℕ)
    → InRange b
    → used b + size ≤ 64000
    → add_data b bytes size ≡ (1, check_window (written (space_left b).1 bytes size))
unfolding add_data
add_data_accepts b bytes size v room =
    let accepted : leb size (space_left b).0 ≡ true =
      le→leb _ _ (omega (arith, space_left-used b v)) in
    rw accepted refl

-- `addData` on a valid buffer, where there is room.
pub add_data_room :
    (b : Buffer) (bytes : List ℕ) (size : ℕ)
    → IsValid b
    → 0 < size
    → size ≤ length bytes
    → used b + size ≤ 64000
    → let (r, c) = add_data b bytes size in
      (r ≡ 1) × (contents c ≡ contents b ++ take size bytes) × IsValid c
add_data_room b bytes size v pos fits room = rw (add_data_accepts b bytes size v.sound.range room) (
  refl,
  contents-check_window_waits w w-IsSound waits
      ∙ contents-written b' sound bytes size pos fits room'
      ∙ ap (λ (xs : List ℕ). xs ++ take size bytes) (SameData-contents b b' same),
  check_window-IsValid w w-IsSound,
)
  where
    b' : Buffer
    b' = (space_left b).1

    w : Buffer
    w = written b' bytes size

    same : SameData b b'
    same = space_left-SameData b

    sound : IsSound b'
    sound = SameData-IsSound b b' same v.sound

    room' : used b' + size ≤ 64000
    room' = rw same.used_same room

    w-IsSound : IsSound w
    w-IsSound = written-IsSound b' sound bytes size pos fits room'

    waits : HeadWaits w.nodes
    waits = rw (fields b' sound bytes size pos fits room').1 (rw same.nodes_same v.waits)

-- `addData` on a valid buffer, where there is none.
add_data_no_room :
    (b : Buffer) (bytes : List ℕ) (size : ℕ)
    → IsValid b
    → 64000 < used b + size
    → let (r, c) = add_data b bytes size in (r ≡ 0) × (contents c ≡ contents b) × IsValid c
unfolding add_data
add_data_no_room b bytes size v full = rw refused (
  refl,
  contents-check_window_waits b' sound (rw same.nodes_same v.waits) ∙ SameData-contents b b' same,
  check_window-IsValid b' sound,
)
  where
    b' : Buffer
    b' = (space_left b).1

    same : SameData b b'
    same = space_left-SameData b

    sound : IsSound b'
    sound = SameData-IsSound b b' same v.sound

    refused : leb size (space_left b).0 ≡ false
    refused = gt→leb _ _ (omega (arith, space_left-used b v.sound.range))

pub length-contents : (b : Buffer) → length (contents b) ≡ used b
unfolding contents
length-contents b = length-ring b.cirbuffer b.dstart (used b)

-- `addData` with a valid buffer and a non-empty block returns what the bounded queue of the bytes
-- held returns, leaves the buffer holding that queue, and keeps it valid.
pub add_data_refines :
    (b : Buffer) (bytes : List ℕ) (size : ℕ)
    → IsValid b
    → 0 < size
    → size ≤ length bytes
    → let (r, c) = add_data b bytes size in
      ((r, contents c) ≡ push_block (contents b) (take size bytes)) × IsValid c
unfolding push_block
add_data_refines b bytes size v pos fits = elim (dec_le (used b + size) 64000) [
  | yes room ↦
      let a = add_data_room b bytes size v pos fits room in
      let t = le→leb size (64000 - length (contents b)) (omega (arith, length-contents b)) in
      (rw (length-take_le size bytes fits, t, a.0, a.1), a.2)
  | no full ↦
      let a = add_data_no_room b bytes size v (omega arith) in
      let t = gt→leb size (64000 - length (contents b)) (omega (arith, length-contents b)) in
      (rw (length-take_le size bytes fits, t, a.0, a.1), a.2)
]
