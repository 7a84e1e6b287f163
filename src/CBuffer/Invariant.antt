-- ===== src/CBuffer/Invariant.antt =====
-- The invariant of the client's buffer, and `checkWindow` of cbuffer.c, which establishes it.
use Prim.Native.Nat.{min as lesser}
use project.Base.{
  ℕ, ◌+◌, ◌-◌, ◌%◌, ◌≤◌, ◌<◌, ◌≡◌, refl, sym, ap, ◌∙◌, ◌⊎◌, inl, inr, Bool, true, List, [], ◌∷◌,
  arith, length, length-replicate, ltb, Bool-cases, ltb→lt, ltb→ge,
}
use native.Mathlib.Decide.{dec_lt}
use project.CBuffer.{
  Buffer, PackNode, space_left, free_acked, advance, move_window, distance, fill_window,
  check_window, initialize,
}
use project.CBuffer.Space.{InRange, used, UsedCases, used_cases, SameData, used_eq}
use project.CBuffer.Chain.{Chain, Chain-eq, total, HeadWaits}
use project.CBuffer.Shorten.{freed, Shortened, free_acked-Shortened}
use project.CBuffer.Grow.{fill-Grown, fill-HeadWaits}

-- What `checkWindow` needs: the packets are consecutive stretches from `dstart` on, numbered up to
-- `packseq`, and cover no more than is held or than the window shows.
pub record IsSound (b : Buffer) : Type 0 where
  pub range : InRange b
  pub whole : length b.cirbuffer ≡ 64000
  pub numbered : length b.nodes < b.packseq
  pub chain : Chain b.dstart (b.packseq - length b.nodes) b.nodes
  pub in_window : total b.nodes ≤ 20000
  pub held : total b.nodes ≤ used b

-- What it leaves: the packets cover the first 20000 bytes held, or all if there are fewer, and the
-- oldest of them waits for its acknowledgement.
pub record IsValid (b : Buffer) : Type 0 where
  pub sound : IsSound b
  pub covers : total b.nodes ≡ lesser 20000 (used b)
  pub waits : HeadWaits b.nodes

-- The arithmetic of the two calls of `spaceLeft`: before and after `dstart` moves over `k` bytes.
held_after :
    (s s' k n n' t t' e : ℕ) (flag flag' : Bool)
    → UsedCases s e flag n
    → UsedCases s' e flag' n'
    → s < 64000
    → e ≤ 64000
    → s' ≡ (s + k) % 64000
    → t' + k ≡ t
    → t ≤ n
    → ((flag' ≡ flag) × ((k ≡ 0) ⊎ (1 ≤ t'))) ⊎ ((flag' ≡ true) × (t' ≡ 0) × (1 ≤ k))
    → (k ≡ 0) ⊎ (k < n) ⊎ (e < 64000)
    → n' + k ≡ n
held_after s s' k n n' t t' e flag flag' u u' s_in e_in start bytes held fl h = ground arith

total_of_nil : (ns : List PackNode) → ns ≡ [] → total ns ≡ 0
total_of_nil [] e = refl
total_of_nil (n ∷ r) e = cc

module _ (b : Buffer) (v : IsSound b) where
  pub advance-Shortened :
      Shortened b.dstart
        (b.packseq - length b.nodes)
        b.is_empty
        b.nodes
        (free_acked b.dstart b.is_empty b.nodes)
  advance-Shortened =
      free_acked-Shortened b.dstart (b.packseq - length b.nodes) b.is_empty b.nodes v.range.start_in
        v.chain

  pub advance-InRange : InRange (advance b)
  unfolding advance
  advance-InRange = record {
    start_in = omega (arith, advance-Shortened.start);
    end_in = v.range.end_in;
  }

  -- `advance` moves `dstart` past the freed packets, and gives up their bytes, unless all that is
  -- held is freed and `dend` stands at the very end of the array.
  pub used-advance :
      (freed b.nodes ≡ 0) ⊎ (freed b.nodes < used b) ⊎ (b.dend < 64000)
      → used (advance b) + freed b.nodes ≡ used b
  unfolding advance
  used-advance h =
      held_after b.dstart (advance b).dstart (freed b.nodes) (used b) (used (advance b))
        (total b.nodes) (total (advance b).nodes) b.dend b.is_empty (advance b).is_empty
        (used_cases b v.range) (used_cases (advance b) advance-InRange) v.range.start_in
        v.range.end_in advance-Shortened.start advance-Shortened.bytes v.held
        (elim advance-Shortened.flag [
          | inl f ↦ inl f
          | inr f ↦ inr (f.0, total_of_nil (advance b).nodes f.1, f.2)
        ])
        h

  pub advance-IsSound : IsSound (advance b)
  unfolding advance
  advance-IsSound = record {
    range = advance-InRange;
    whole = v.whole;
    numbered = omega (arith, advance-Shortened.count, v);
    chain =
        Chain-eq _ _ _ _ (advance b).nodes refl (omega (arith, advance-Shortened.count, v))
          advance-Shortened.chain;
    in_window = omega (arith, advance-Shortened.bytes, v);
    held = elim (dec_lt (freed b.nodes) (used b)) [
      | yes l ↦ omega (arith, used-advance (inr (inl l)), advance-Shortened.bytes, v)
      | no l ↦ omega (arith, advance-Shortened.bytes, v)
    ];
  }

  pub advance-HeadWaits : HeadWaits (advance b).nodes
  unfolding advance
  advance-HeadWaits = advance-Shortened.waits

pub move_window_lem :
    (b : Buffer)
    → InRange b
    → SameData b (move_window b) × (distance (move_window b) ≡ lesser 20000 (used b))
unfolding move_window distance space_left used
move_window_lem b v = ground arith

-- The last part of `checkWindow`, on a list that covers no more than the window.
fill_window-IsValid :
    (b : Buffer) (dist : ℕ)
    → IsSound b
    → HeadWaits b.nodes
    → dist ≡ lesser 20000 (used b)
    → IsValid (fill_window b dist)
unfolding fill_window
fill_window-IsValid b dist v w e = elim (Bool-cases (ltb 0 dist)) [
  | inl p ↦
      let g =
        fill-Grown b.dstart (b.packseq - length b.nodes) dist b.packseq b.nodes v.range.start_in
          (ltb→lt _ _ p) v.chain (omega (arith, v)) (omega (arith, v)) in
      rw p (record {
        sound = record {
          range = record { start_in = v.range.start_in; end_in = v.range.end_in };
          whole = v.whole;
          numbered = omega (arith, g, v);
          chain = Chain-eq _ _ _ _ _ refl (omega (arith, g, v)) g.chain;
          in_window = omega (arith, g);
          held = omega (arith, g, used_eq b _ refl refl refl);
        };
        covers = omega (arith, g, used_eq b _ refl refl refl);
        waits = fill-HeadWaits b.dstart dist b.packseq b.nodes w;
      })
  | inr p ↦
      let none_left = ltb→ge _ _ p in
      rw p (record { sound = v; covers = omega (arith, v); waits = w })
]

pub SameData-IsSound : (b c : Buffer) → SameData b c → IsSound b → IsSound c
SameData-IsSound b c same v = record {
  range = record {
    start_in = rw same.dstart_same v.range.start_in;
    end_in = rw same.dend_same v.range.end_in;
  };
  whole = rw same.cirbuffer_same v.whole;
  numbered = rw (same.nodes_same, same.packseq_same) v.numbered;
  chain = rw (same.nodes_same, same.dstart_same, same.packseq_same) v.chain;
  in_window = rw same.nodes_same v.in_window;
  held = rw (same.used_same, same.nodes_same) v.held;
}

fill_window_data :
    (b : Buffer) (dist : ℕ)
    → let c = fill_window b dist in
      (c.cirbuffer ≡ b.cirbuffer)
      × (c.dstart ≡ b.dstart)
      × (c.dend ≡ b.dend)
      × (c.is_empty ≡ b.is_empty)
unfolding fill_window
fill_window_data b dist = ground arith

-- What `checkWindow` does to the fields other than the list.
pub record Moved (b c : Buffer) : Type 0 where
  pub cirbuffer_kept : c.cirbuffer ≡ b.cirbuffer
  pub dend_kept : c.dend ≡ b.dend
  pub start_moved : c.dstart ≡ (b.dstart + freed b.nodes) % 64000
  pub used_moved : used c ≡ used (advance b)

pub check_window-Moved : (b : Buffer) → IsSound b → Moved b (check_window b)
unfolding check_window
check_window-Moved b v = record {
  cirbuffer_kept = filled.0 ∙ same.cirbuffer_same ∙ unfold advance in refl;
  dend_kept = filled.2 ∙ same.dend_same ∙ unfold advance in refl;
  start_moved = filled.1 ∙ same.dstart_same ∙ unfold advance in (advance-Shortened b v).start;
  used_moved = used_eq (move_window (advance b)) _ filled.1 filled.2 filled.3 ∙ same.used_same;
}
  where
    same : SameData (advance b) (move_window (advance b))
    same = (move_window_lem (advance b) (advance-InRange b v)).0

    filled :
        let m = move_window (advance b) in
        let c = fill_window m (distance m) in
        (c.cirbuffer ≡ m.cirbuffer)
        × (c.dstart ≡ m.dstart)
        × (c.dend ≡ m.dend)
        × (c.is_empty ≡ m.is_empty)
    filled = fill_window_data (move_window (advance b)) (distance (move_window (advance b)))

-- `checkWindow` brings a sound buffer into a valid state.
pub check_window-IsValid : (b : Buffer) → IsSound b → IsValid (check_window b)
unfolding check_window
check_window-IsValid b v =
    let m = move_window_lem (advance b) (advance-InRange b v) in
    let s = SameData-IsSound _ _ m.0 (advance-IsSound b v) in
    fill_window-IsValid (move_window (advance b)) _ s (rw m.0.nodes_same (advance-HeadWaits b v))
      (m.1 ∙ ap (lesser 20000) (sym m.0.used_same))

-- The buffer starts valid.
pub initialize-IsValid : IsValid initialize
unfolding used
initialize-IsValid = record {
  sound = record {
    range = record { start_in = omega arith; end_in = omega arith };
    whole = length-replicate 64000 0;
    numbered = omega arith;
    chain = tt;
    in_window = omega arith;
    held = omega arith;
  };
  covers = unfold space_left in refl;
  waits = tt;
}
