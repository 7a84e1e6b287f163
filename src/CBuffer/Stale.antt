-- ===== src/CBuffer/Stale.antt =====
-- The empty buffer of cbuffer.c, and what `checkWindow` and `addData` make of it.
use project.Base.{ℕ, ◌≤◌, ◌<◌, ◌≡◌, refl, inl, ◌∙◌, true, List, arith, length, leb, le→leb}
use project.CBuffer.{Buffer, space_left, write_data, check_window, advance, add_data}
use project.CBuffer.Space.{InRange, used, UsedCases, used_cases, SameData, space_left-SameData}
use project.CBuffer.Shorten.{freed}
use project.CBuffer.Invariant.{
  IsSound, IsValid, Moved, check_window-Moved, advance-Shortened, advance-InRange, used-advance,
  SameData-IsSound,
}
use project.CBuffer.Add.{freed_of_waits, written, write_data_fields}

-- When a sound buffer holds something, every byte of it is acknowledged and the last ends at the
-- very end of the array, `checkWindow` leaves a buffer that holds 64000 bytes.
pub used_after_end :
    (b : Buffer)
    → IsSound b
    → 0 < used b
    → freed b.nodes ≡ used b
    → b.dend ≡ 64000
    → used (check_window b) ≡ 64000
used_after_end b v pos all end =
    m.used_moved ∙ refilled (used_cases (advance b) (advance-InRange b v))
  where
    m : Moved b (check_window b)
    m = check_window-Moved b v

    at_start : (advance b).dstart ≡ 0
    at_start = unfold advance in omega (arith, (advance-Shortened b v).start, used_cases b v.range)

    at_end : (advance b).dend ≡ 64000
    at_end = unfold advance in end

    refilled :
        UsedCases (advance b).dstart (advance b).dend (advance b).is_empty (used (advance b))
        → used (advance b) ≡ 64000
    refilled u = omega (arith, at_start, at_end)

used-written_nothing :
    (b : Buffer) (bytes : List ℕ) → InRange b → used b ≡ 0 → used (written b bytes 0) ≡ 64000
unfolding used space_left write_data
used-written_nothing b bytes v e = ground arith

-- A block of no bytes added to a valid buffer that is empty is accepted, and fills it.
pub used_after_nothing :
    (b : Buffer) (bytes : List ℕ)
    → IsValid b
    → used b ≡ 0
    → let (r, c) = add_data b bytes 0 in (r ≡ 1) × (used c ≡ 64000)
unfolding add_data
used_after_nothing b bytes v e = rw accepted (refl, full)
  where
    b' : Buffer
    b' = (space_left b).1

    w : Buffer
    w = written b' bytes 0

    same : SameData b b'
    same = space_left-SameData b

    sound : IsSound b'
    sound = SameData-IsSound b b' same v.sound

    accepted : leb 0 (space_left b).0 ≡ true
    accepted = le→leb _ _ (omega arith)

    f :
        let c = write_data b' bytes 0 in
        (c.dstart ≡ b'.dstart)
        × (c.nodes ≡ b'.nodes)
        × (c.packseq ≡ b'.packseq)
        × (c.dend ≤ 64000)
        × (length c.cirbuffer ≡ length b'.cirbuffer)
    f = write_data_fields b' bytes 0 sound.range (omega arith)

    w-InRange : InRange w
    w-InRange = record { start_in = rw f.0 sound.range.start_in; end_in = f.3 }

    used-w : used w ≡ 64000
    used-w = used-written_nothing b' bytes sound.range (same.used_same ∙ e)

    w-IsSound : IsSound w
    w-IsSound = record {
      range = w-InRange;
      whole = f.4 ∙ sound.whole;
      numbered = rw (f.1, f.2) sound.numbered;
      chain = rw (f.0, f.1, f.2) sound.chain;
      in_window = rw f.1 sound.in_window;
      held = rw used-w (rw f.1 (omega (arith, sound.in_window)));
    }

    nothing_freed : freed w.nodes ≡ 0
    nothing_freed = freed_of_waits w.nodes (rw f.1 (rw same.nodes_same v.waits))

    full : used (check_window w) ≡ 64000
    full =
        (check_window-Moved w w-IsSound).used_moved
        ∙ omega (arith, used-advance w w-IsSound (inl nothing_freed), nothing_freed, used-w)
