-- ===== src/TimerProcess/Remove.antt =====
-- `removeValue` of timerprocess.c: what is left of the schedule.
use project.Base.{ℕ, ◌≡◌, ◌≢◌, ap, ◌∙◌, List, [], ◌∷◌, arith, All}
use project.Int.{ℤ, negsuc}
use project.TimerProcess.{ListNode, remove_value}

-- Another number at the front is passed over.
remove_value_other :
    (bsn : ℕ) (p m : ListNode) (r : List ListNode)
    → p.byte_seq_num ≢ bsn
    → remove_value bsn (p ∷ (m ∷ r))
      ≡ ((remove_value bsn (m ∷ r)).0, p ∷ (remove_value bsn (m ∷ r)).1)
unfolding remove_value
remove_value_other bsn p m r ne = ground arith

-- In a list that is not empty, a number that no timer has is reported by -1, and changes nothing.
pub remove_value_absent :
    (bsn : ℕ) (n : ListNode) (r : List ListNode)
    → All (λ m. m.byte_seq_num ≢ bsn) (n ∷ r)
    → remove_value bsn (n ∷ r) ≡ (negsuc 0, n ∷ r)
unfolding remove_value
remove_value_absent bsn n [] d = ground arith
remove_value_absent bsn n (m ∷ r) d =
    remove_value_other bsn n m r d.0
    ∙ ap (λ (o : ℤ × List ListNode). (o.0, n ∷ o.1)) (remove_value_absent bsn m r d.1)
