-- ===== src/CBuffer/Tests.antt =====
-- The theorems on the client's buffer at concrete states: the empty buffer, one that nine bytes
-- were added to, and two whose packets are acknowledged.
use Prim.Native.Nat.{min as lesser}
use project.Base.{
  ℕ, ◌+◌, ◌≤◌, ◌≡◌, refl, inr, false, List, [], ◌∷◌, arith, take, drop, replicate, length-replicate,
}
use project.CBuffer.{Buffer, initialize, space_left, check_window, add_data}
use project.CBuffer.Space.{used}
use project.CBuffer.Ring.{contents}
use project.CBuffer.Invariant.{IsSound, IsValid, initialize-IsValid, check_window-IsValid}
use project.CBuffer.Add.{push_block, contents-check_window, add_data_refines}
use project.CBuffer.Packets.{payloads, payloads-contents}
use project.CBuffer.Stale.{used_after_end, used_after_nothing}

abbrev digits : List ℕ
digits = 49 ∷ 50 ∷ 51 ∷ 52 ∷ 53 ∷ 54 ∷ 55 ∷ 56 ∷ 57 ∷ []

-- Nine bytes in the buffer.
abbrev nine : Buffer
nine = (add_data initialize digits 9).1

nine-IsValid : IsValid nine
nine-IsValid =
    (add_data_refines initialize digits 9 initialize-IsValid (omega arith) (omega arith)).1

-- One packet of five bytes, acknowledged, up to `dend`.
abbrev acknowledged : ℕ → ℕ → Buffer
acknowledged dstart dend = record {
  cirbuffer = replicate 64000 7;
  nodes = record { seqnum = 1; dat = dstart; size = 5; ack = 2 } ∷ [];
  dstart = dstart;
  dend = dend;
  windowend = dend;
  packseq = 2;
  is_empty = false;
}

acknowledged-IsSound :
    (dstart dend : ℕ)
    → dstart + 5 ≤ dend
    → dend ≤ 64000
    → (used (acknowledged dstart dend) + dstart ≡ dend) × IsSound (acknowledged dstart dend)
unfolding used space_left
acknowledged-IsSound dstart dend h hi = (
  omega (arith, held),
  record {
    range = record { start_in = omega arith; end_in = hi };
    whole = length-replicate 64000 7;
    numbered = omega arith;
    chain = (omega arith, omega arith, omega arith, refl, tt);
    in_window = omega arith;
    held = omega (arith, held);
  },
)
  where
    held : used (acknowledged dstart dend) + dstart ≡ dend
    held = ground arith

checked_window : IsValid (check_window (acknowledged 100 110))
checked_window =
    check_window-IsValid (acknowledged 100 110)
      (acknowledged-IsSound 100 110 (omega arith) (omega arith)).1

contents-check_window_example :
    contents (check_window (acknowledged 100 110)) ≡ drop 5 (contents (acknowledged 100 110))
contents-check_window_example =
    contents-check_window (acknowledged 100 110)
      (acknowledged-IsSound 100 110 (omega arith) (omega arith)).1 (inr (inr (omega arith)))

add_data_refines_example :
    let (r, c) = add_data nine (1 ∷ 2 ∷ 3 ∷ []) 2 in
    ((r, contents c) ≡ push_block (contents nine) (1 ∷ 2 ∷ [])) × IsValid c
add_data_refines_example =
    add_data_refines nine (1 ∷ 2 ∷ 3 ∷ []) 2 nine-IsValid (omega arith) (omega arith)

payloads-contents_example :
    payloads nine.cirbuffer nine.nodes ≡ take (lesser 20000 (used nine)) (contents nine)
payloads-contents_example = payloads-contents nine nine-IsValid

used_after_end_example : used (check_window (acknowledged 63995 64000)) ≡ 64000
used_after_end_example =
    let s = acknowledged-IsSound 63995 64000 (omega arith) (omega arith) in
    used_after_end (acknowledged 63995 64000) s.1 (omega (arith, s.0)) (omega (arith, s.0)) refl

nothing_fills : let (r, c) = add_data initialize digits 0 in (r ≡ 1) × (used c ≡ 64000)
nothing_fills =
    used_after_nothing initialize digits initialize-IsValid
      (unfold used in unfold space_left in refl)
