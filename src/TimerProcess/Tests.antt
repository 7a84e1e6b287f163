-- ===== src/TimerProcess/Tests.antt =====
-- The theorems on the timer process at concrete lists, and a timer that is put into the wrong place.
use project.Base.{
  ℕ, ◌≡◌, refl, inr, Bool, ◌==◌, List, [], ◌∷◌, ◌++◌, arith, replicate, length-replicate,
}
use project.Int.{pos, negsuc, ◌+ℤ◌, ◌-ℤ◌}
use project.TimerClient.{canceltimer}
use project.Outcome.{ok}
use project.TimerProcess.{
  ListNode, Unknown, before, insert_value, walk, locate, link, place, remove_value, expiration,
  decrement, receive,
}
use project.TimerProcess.Schedule.{due, end}
use project.TimerProcess.Insert.{Added, insert_value-Added}
use project.TimerProcess.Head.{insert_value_first}
use project.TimerProcess.Last.{insert_value_last}
use project.TimerProcess.Gap.{insert_value_gap, insert_value_near}
use project.TimerProcess.Remove.{remove_value_absent}
use project.TimerProcess.Fire.{overdue, pending, notices, decrement-Fired, decrement_exact}
use project.TimerProcess.Requests.{receive-canceltimer}

abbrev node : ℕ → ℕ → ListNode
node ms bsn = record { dtime = pos ms; port = 0; byte_seq_num = bsn }

-- Some way for ties to come out.
abbrev ties : ℕ → Bool
ties n = n == 1

abbrev passing : ℕ → Bool
passing n = n == 0

-- The bytes behind `temp` change nothing.
abbrev harmless : Unknown
harmless = record { inserting = λ y. ties; passing = passing; overrun = λ y o. ok o }

-- Due at 300, 500 and 1700 milliseconds.
abbrev three : List ListNode
three = node 300 1 ∷ (node 200 2 ∷ (node 1200 3 ∷ []))

-- Asked for 400 ms, due at 600.
misplaced :
    due (pos 0) (insert_value ties (pos 400) 0 9 three)
    ≡ (1, pos 300) ∷ ((2, pos 500) ∷ ((9, pos 600) ∷ ((3, pos 1700) ∷ [])))
unfolding insert_value locate walk place link before ◌+ℤ◌ ◌-ℤ◌
misplaced = refl

insert_value_gap_example :
    due (pos 0) (insert_value ties (pos 400) 0 9 three)
    ≡ due (pos 0) (node 300 1 ∷ (node 200 2 ∷ []))
      ++ ((9, pos 400 +ℤ pos 200)
          ∷ due (end (pos 0) (node 300 1 ∷ []) +ℤ pos 200) (node 1200 3 ∷ []))
unfolding ◌+ℤ◌
insert_value_gap_example =
    insert_value_gap ties (pos 400) 0 9 [] [] (node 300 1) (node 200 2) (node 1200 3) (refl, tt)
      refl refl

-- Asked for 1800 ms, due at 600.
insert_value_near_example :
    due (pos 0) (insert_value ties (pos 1800) 0 9 three)
    ≡ due (pos 0) (node 300 1 ∷ (node 200 2 ∷ []))
      ++ ((9, pos 1800 -ℤ pos 1200) ∷ due (pos 500) (node 1200 3 ∷ []))
unfolding ◌+ℤ◌
insert_value_near_example =
    insert_value_near ties (pos 1800) 0 9 (node 200 2 ∷ []) (node 300 1) (node 1200 3)
      (refl, (refl, tt)) refl refl refl

insert_value-Added_example :
    Added 9 (due (pos 0) three) (due (pos 0) (insert_value ties (pos 400) 0 9 three))
insert_value-Added_example = insert_value-Added ties (pos 400) 0 9 three

inserted_first :
    due (pos 0) (insert_value ties (pos 100) 0 9 three) ≡ (9, pos 100) ∷ due (pos 0) three
inserted_first =
    insert_value_first ties (pos 100) 0 9 (node 300 1) (node 200 2 ∷ (node 1200 3 ∷ [])) refl

insert_value_last_example :
    due (pos 0) (insert_value ties (pos 3000) 0 9 three) ≡ due (pos 0) three ++ ((9, pos 3000) ∷ [])
unfolding ◌+ℤ◌
insert_value_last_example =
    insert_value_last ties (pos 3000) 0 9 (node 300 1) (node 200 2 ∷ (node 1200 3 ∷ []))
      (refl, (refl, (refl, tt))) refl (inr refl)

not_removed : remove_value 7 three ≡ (negsuc 0, three)
not_removed = remove_value_absent 7 (node 300 1) (node 200 2 ∷ (node 1200 3 ∷ [])) (ground arith)

decrement-Fired_example :
    let (sent, rest) = decrement passing (pos 900) (pos 300) three in
    let times = due (pos 0 -ℤ (pos 900 -ℤ pos 300)) three in
    (sent ≡ notices (overdue times)) × (due (pos 0) rest ≡ pending times)
unfolding ◌-ℤ◌ ◌+ℤ◌
decrement-Fired_example =
    decrement-Fired passing (pos 900) (pos 300) (node 300 1) (node 200 2 ∷ (node 1200 3 ∷ []))
      (refl, (refl, tt)) (ground arith) (omega arith)

only_one_ends :
    (decrement passing (pos 600) (pos 300) (node 300 1 ∷ (node 0 2 ∷ []))).0 ≡ expiration 1 ∷ []
unfolding ◌-ℤ◌
only_one_ends = decrement_exact passing (pos 600) (pos 300) (node 300 1) (node 0 2 ∷ []) refl refl

canceled : receive harmless (canceltimer (replicate 8 7) 2) three ≡ ok ((remove_value 2 three).1)
canceled =
    receive-canceltimer harmless 2 (replicate 8 7) three (omega arith) (length-replicate 8 7)
      (λ o. refl)
