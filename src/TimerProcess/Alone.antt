-- ===== src/TimerProcess/Alone.antt =====
-- timerprocess.c with a single timer: from the request to the notice.
use project.Base.{
  ℕ, ◌/◌, ◌^◌, ◌<◌, ◌≡◌, refl, ap, ◌∙◌, Bool, true, List, [], ◌∷◌, ◌++◌, append-nil, arith, All,
  some, none, ==_refl,
}
use project.Int.{ℤ, pos, ◌+ℤ◌, ◌-ℤ◌, ltb_ℤ, +ℤ_parts, int_laws}
use project.TimerClient.{starttimer}
use project.Outcome.{Outcome, ok, ◌>>=◌}
use project.TimerProcess.{
  ListNode, Unknown, expiration, remove_value, fire, insert_value, decrement, take_in, TimerProcess,
  round,
}
use project.TimerProcess.Ties.{before_less, before_more, meets_less, meets_more}
use project.TimerProcess.Requests.{receive-starttimer}

-- The one timer of the process is for `bsn` and ends when the clock shows `deadline`.
pub record Ticks (deadline : ℤ) (bsn : ℕ) (t : TimerProcess) : Type 0 where
  pub left : ℤ
  pub nodes_are : t.nodes ≡ record { dtime = left; port = 0; byte_seq_num = bsn } ∷ []
  pub until : t.prev +ℤ left ≡ deadline

-- Rounds in which nothing arrives: what is left open in each, and what the clock shows.
pub wait : List (Unknown × ℤ) → TimerProcess → Outcome TimerProcess
wait [] t = ok t
wait ((u, now) ∷ rounds) t = round u none now t >>= λ t'. wait rounds t'

-- What is left of a timer when the clock shows `now`.
left_then : (now prev left : ℤ) → now +ℤ (left -ℤ (now -ℤ prev)) ≡ prev +ℤ left
left_then now prev left = omega int_laws

early_left :
    (deadline now left : ℤ)
    → now +ℤ left ≡ deadline
    → ltb_ℤ now deadline ≡ true
    → ltb_ℤ (pos 0) left ≡ true
early_left deadline now left e early =
    let early' : ltb_ℤ now (now +ℤ left) ≡ true = rw e early in ground (arith, +ℤ_parts now left)

late_left :
    (deadline now left : ℤ)
    → now +ℤ left ≡ deadline
    → ltb_ℤ deadline now ≡ true
    → ltb_ℤ left (pos 0) ≡ true
late_left deadline now left e late =
    let late' : ltb_ℤ (now +ℤ left) now ≡ true = rw e late in ground (arith, +ℤ_parts now left)

-- The test of the clock on a single timer.
decrement_early :
    (ties : ℕ → Bool) (now prev left : ℤ) (bsn : ℕ)
    → ltb_ℤ (pos 0) (left -ℤ (now -ℤ prev)) ≡ true
    → decrement ties now prev (record { dtime = left; port = 0; byte_seq_num = bsn } ∷ [])
      ≡ ([], record { dtime = left -ℤ (now -ℤ prev); port = 0; byte_seq_num = bsn } ∷ [])
unfolding decrement
decrement_early ties now prev left bsn early =
    let then_left = left -ℤ (now -ℤ prev) in
    rw (meets_more (ties 0) then_left (pos 0) early, before_more (ties 1) then_left (pos 0) early)
      refl

decrement_late :
    (ties : ℕ → Bool) (now prev left : ℤ) (bsn : ℕ)
    → ltb_ℤ (left -ℤ (now -ℤ prev)) (pos 0) ≡ true
    → decrement ties now prev (record { dtime = left; port = 0; byte_seq_num = bsn } ∷ [])
      ≡ (expiration bsn ∷ [], [])
unfolding decrement fire remove_value
decrement_late ties now prev left bsn late =
    let then_left = left -ℤ (now -ℤ prev) in
    rw
      (
        meets_less (ties 0) then_left (pos 0) late,
        before_less (ties 1) then_left (pos 0) late,
        ==_refl bsn,
      )
      refl

alone : ℤ → ℕ → List ListNode
alone left bsn = record { dtime = left; port = 0; byte_seq_num = bsn } ∷ []

abbrev process : List ListNode → ℤ → List (List ℕ) → TimerProcess
process nodes prev notices = record { nodes = nodes; prev = prev; notices = notices }

-- A round in which nothing arrives.
round_idle :
    (u : Unknown) (now : ℤ) (t : TimerProcess) (sent : List (List ℕ)) (nodes : List ListNode)
    → decrement u.passing now t.prev t.nodes ≡ (sent, nodes)
    → round u none now t ≡ ok (process nodes now (t.notices ++ sent))
unfolding round take_in
round_idle u now t sent nodes e =
    ap (λ (x : List (List ℕ) × List ListNode). ok (process x.1 now (t.notices ++ x.0))) e

round_early :
    (deadline now : ℤ) (u : Unknown) (bsn : ℕ) (t : TimerProcess)
    → Ticks deadline bsn t
    → ltb_ℤ now deadline ≡ true
    → (t' : TimerProcess) × (round u none now t ≡ ok t')
      × Ticks deadline bsn t'
      × (t'.notices ≡ t.notices)
round_early deadline now u bsn t k early =
    let left = k.left -ℤ (now -ℤ t.prev) in
    let until = left_then now t.prev k.left ∙ k.until in
    let d =
      ap (decrement u.passing now t.prev) k.nodes_are
      ∙ decrement_early u.passing now t.prev k.left bsn
          (early_left deadline now left until early) in
    (
      process (alone left bsn) now (t.notices ++ []),
      unfold alone in round_idle u now t [] (alone left bsn) d,
      record { left = left; nodes_are = unfold alone in refl; until = until },
      append-nil t.notices,
    )

round_late :
    (deadline now : ℤ) (u : Unknown) (bsn : ℕ) (t : TimerProcess)
    → Ticks deadline bsn t
    → ltb_ℤ deadline now ≡ true
    → round u none now t ≡ ok (process [] now (t.notices ++ (expiration bsn ∷ [])))
round_late deadline now u bsn t k late =
    let left = k.left -ℤ (now -ℤ t.prev) in
    let until = left_then now t.prev k.left ∙ k.until in
    round_idle u now t (expiration bsn ∷ []) [] (
      ap (decrement u.passing now t.prev) k.nodes_are
      ∙ decrement_late u.passing now t.prev k.left bsn (late_left deadline now left until late))

wait-Ticks :
    (deadline : ℤ) (rounds : List (Unknown × ℤ)) (bsn : ℕ) (t : TimerProcess)
    → Ticks deadline bsn t
    → All (λ r. ltb_ℤ r.1 deadline ≡ true) rounds
    → (t' : TimerProcess) × (wait rounds t ≡ ok t')
      × Ticks deadline bsn t'
      × (t'.notices ≡ t.notices)
unfolding wait
wait-Ticks deadline [] bsn t k all = (t, refl, k, refl)
wait-Ticks deadline ((u, now) ∷ rounds) bsn t k all =
    let (t', runs, k', same) = round_early deadline now u bsn t k all.0 in
    let (t'', runs', k'', same') = wait-Ticks deadline rounds bsn t' k' all.1 in
    (t'', rw runs runs', k'', same' ∙ same)

-- The round in which the request comes.
round_start :
    (u : Unknown) (ms bsn : ℕ) (now : ℤ) (t : TimerProcess)
    → bsn < 2 ^ 32
    → ms / 1000 < 2 ^ 32
    → t.nodes ≡ []
    → round u (some (starttimer ms bsn)) now t
      ≡ round u none now (record t { nodes = alone (pos ms) bsn })
unfolding round take_in alone
round_start u ms bsn now t h k idle =
    let taken =
      receive-starttimer u ms bsn t.nodes h k
      ∙ ap (λ (l : List ListNode). ok (insert_value (u.inserting 0) (pos ms) 0 bsn l)) idle in
    rw taken (unfold insert_value in refl)

-- The one timer of an idle process: no notice comes while the clock shows less than its time behind
-- the reading that the process had before the request, and one comes in the first round after in
-- which it shows more than that.
pub starttimer-expiration :
    (ms bsn : ℕ) (first : Unknown × ℤ) (rounds : List (Unknown × ℤ)) (last : Unknown × ℤ)
    (t : TimerProcess)
    → bsn < 2 ^ 32
    → ms / 1000 < 2 ^ 32
    → t.nodes ≡ []
    → All (λ r. ltb_ℤ r.1 (t.prev +ℤ pos ms) ≡ true) (first ∷ rounds)
    → ltb_ℤ (t.prev +ℤ pos ms) last.1 ≡ true
    → (waiting : TimerProcess) × (round first.0 (some (starttimer ms bsn)) first.1 t
          >>= (λ t'. wait rounds t')
        ≡ ok waiting)
      × (waiting.notices ≡ t.notices)
      × (round last.0 none last.1 waiting
          ≡ ok (process [] last.1 (t.notices ++ (expiration bsn ∷ []))))
unfolding alone
starttimer-expiration ms bsn first rounds last t h k idle early late =
    let deadline = t.prev +ℤ pos ms in
    let begun : Ticks deadline bsn (record t { nodes = alone (pos ms) bsn }) = record {
      left = pos ms;
      nodes_are = refl;
      until = refl;
    } in
    let (t1, runs, ticks, none_yet) = round_early deadline first.1 first.0 bsn _ begun early.0 in
    let (t2, runs', ticks', none_yet') = wait-Ticks deadline rounds bsn t1 ticks early.1 in
    let silent = none_yet' ∙ none_yet in
    (
      t2,
      rw (round_start first.0 ms bsn first.1 t h k idle) (rw runs runs'),
      silent,
      round_late deadline last.1 last.0 bsn t2 ticks' late
          ∙ ap (λ (l : List (List ℕ)). ok (process [] last.1 (l ++ (expiration bsn ∷ [])))) silent,
    )
