-- ===== src/TimerProcess/Head.antt =====
-- `insertValue` of timerprocess.c, for a time that is not behind the head's.
use project.Base.{ℕ, ◌≡◌, ap, ◌∙◌, Bool, true, false, List, ◌∷◌, arith, if◌then◌else◌}
use project.Int.{ℤ, pos, ◌+ℤ◌, ◌-ℤ◌, leb_ℤ, ltb_ℤ, eq_of_parts, +ℤ_parts, -ℤ_parts}
use project.TimerProcess.{ListNode, eq_ℤ, link, insert_value}
use project.TimerProcess.Schedule.{due, due-link}
use project.TimerProcess.Insert.{locate-head, timer_at}

at_head :
    (ties : ℕ → Bool) (dtime : ℤ) (port bsn : ℕ) (head : ListNode) (r : List ListNode)
    → leb_ℤ dtime head.dtime ≡ true
    → insert_value ties dtime port bsn (head ∷ r)
      ≡ link
          (timer_at (dtime -ℤ (if eq_ℤ dtime head.dtime then dtime else pos 0)) port bsn)
          (head ∷ r)
unfolding insert_value
at_head ties dtime port bsn head r early = rw (early, locate-head ties dtime head r early)

-- A timer that is due before the head is put in front of it, due at the time asked for, and the
-- others keep their times.
pub insert_value_first :
    (ties : ℕ → Bool) (dtime : ℤ) (port bsn : ℕ) (head : ListNode) (r : List ListNode)
    → ltb_ℤ dtime head.dtime ≡ true
    → due (pos 0) (insert_value ties dtime port bsn (head ∷ r))
      ≡ (bsn, dtime) ∷ due (pos 0) (head ∷ r)
insert_value_first ties dtime port bsn head r first =
    ap (due (pos 0)) (at_head ties dtime port bsn head r early)
    ∙ due-link (pos 0) _ (head ∷ r)
    ∙ ap (λ (t : ℤ). (bsn, t) ∷ due (pos 0) (head ∷ r)) (rw other on_time)
  where
    early : leb_ℤ dtime head.dtime ≡ true
    early = ground arith

    other : eq_ℤ dtime head.dtime ≡ false
    other = ground arith

    on_time : pos 0 +ℤ (dtime -ℤ pos 0) ≡ dtime
    on_time =
        eq_of_parts _ _ (omega (arith, +ℤ_parts (pos 0) (dtime -ℤ pos 0), -ℤ_parts dtime (pos 0)))
