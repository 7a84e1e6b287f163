-- ===== src/TimerProcess/Fire.antt =====
-- `decrement` of timerprocess.c: which timers end when time has passed.
use project.Base.{
  ℕ, ◌+◌, ◌<◌, ◌≡◌, ◌≢◌, refl, ap, sym, Bool, true, length, List, [], ◌∷◌, map, arith, All,
  if◌then◌else◌, Bool-cases, ==_refl, ==_iff, inl, inr,
}
use project.Int.{ℤ, pos, ◌+ℤ◌, ◌-ℤ◌, ltb_ℤ, leb_ℤ, neg_part, eq_of_parts, +ℤ_parts, -ℤ_parts}
use project.TimerProcess.{
  ListNode, eq_ℤ, meets, whole_seconds, expiration, remove_value, fire, decrement,
}
use project.TimerProcess.Ties.{
  before_less, before_more, meets_less, meets_more, below_zero, above_zero,
}
use project.TimerProcess.Schedule.{due}

-- The entries at the front of a schedule that are due by 0, and those from the first that is not.
abbrev pub overdue : List (ℕ × ℤ) → List (ℕ × ℤ)
overdue [] = []
overdue (e ∷ es) = if leb_ℤ e.1 (pos 0) then e ∷ overdue es else []

abbrev pub pending : List (ℕ × ℤ) → List (ℕ × ℤ)
pending [] = []
pending (e ∷ es) = if leb_ℤ e.1 (pos 0) then pending es else e ∷ es

abbrev pub notices : List (ℕ × ℤ) → List (List ℕ)
notices es = map (λ e. expiration e.0) es

-- A node counts no time back.
abbrev pub Forward : ListNode → Type 0
Forward n = neg_part n.dtime ≡ 0

-- Less than a second late: the whole seconds are none.
whole_seconds-zero : (d : ℤ) → leb_ℤ d (pos 0) ≡ true → neg_part d < 1000 → whole_seconds d ≡ pos 0
unfolding whole_seconds
whole_seconds-zero d late h = ground arith

pub zero_plus : (d : ℤ) → pos 0 +ℤ d ≡ d
zero_plus d = eq_of_parts _ _ (omega (arith, +ℤ_parts (pos 0) d))

-- The next node's time once a late head is gone, and how late that one is at most.
late_next :
    (n d : ℤ)
    → leb_ℤ d (pos 0) ≡ true
    → neg_part d < 1000
    → neg_part n ≡ 0
    → (n +ℤ d +ℤ whole_seconds d ≡ d +ℤ n) × (neg_part (d +ℤ n) < 1000)
unfolding ◌+ℤ◌
late_next n d late h fwd = rw (whole_seconds-zero d late h) (same, ground arith)
  where
    same : n +ℤ d +ℤ pos 0 ≡ d +ℤ n
    same = eq_of_parts _ _ (omega (arith, +ℤ_parts (n +ℤ d) (pos 0), +ℤ_parts n d, +ℤ_parts d n))

-- The loop, with the time of its head given apart.
fire_from :
    (ties : ℕ → Bool) (head : ListNode) (r : List ListNode) (t : ℤ)
    → head.dtime ≡ t
    → All (λ e. e.1 ≢ pos 0) ((head.byte_seq_num, t) ∷ due t r)
    → neg_part t < 1000
    → All Forward r
    → let (sent, rest) = fire ties head r in
      let times = (head.byte_seq_num, t) ∷ due t r in
      (sent ≡ notices (overdue times)) × (due (pos 0) rest ≡ pending times)
unfolding fire remove_value
fire_from ties head [] t e apart h f = elim (Bool-cases (leb_ℤ t (pos 0))) [
  | inl late ↦
      let late' = before_less (ties 1) head.dtime (pos 0) (rw e (below_zero t apart.0 late)) in
      rw (late', late, ==_refl head.byte_seq_num) (refl, refl)
  | inr early ↦
      let early' = before_more (ties 1) head.dtime (pos 0) (rw e (above_zero t early)) in
      rw (early', early) (refl, rw (zero_plus, e))
]
fire_from ties head (n ∷ r) t e apart h f = elim (Bool-cases (leb_ℤ t (pos 0))) [
  | inl late ↦
      let next = late_next n.dtime t late h f.0 in
      let again : ListNode = record n {
        dtime = n.dtime +ℤ head.dtime +ℤ whole_seconds head.dtime;
      } in
      let at : again.dtime ≡ t +ℤ n.dtime = rw e next.0 in
      let (sent, rest) = fire_from ties again r (t +ℤ n.dtime) at apart.1 next.1 f.1 in
      let late' =
        before_less (ties (length r + 2)) head.dtime (pos 0) (rw e (below_zero t apart.0 late)) in
      rw (late', late) (ap (λ (l : List (List ℕ)). expiration head.byte_seq_num ∷ l) sent, rest)
  | inr early ↦
      let early' =
        before_more (ties (length r + 2)) head.dtime (pos 0) (rw e (above_zero t early)) in
      rw (early', early) (refl, rw (zero_plus, e))
]

-- On a list whose deltas behind the head are not negative, in which no timer is due to the
-- millisecond and whose head is not a second or more late, `decrement` sends a notice for each timer
-- whose time is up, in order, and keeps the others, which are due earlier by the time that has
-- passed.
pub decrement-Fired :
    (ties : ℕ → Bool) (now prev : ℤ) (head : ListNode) (r : List ListNode)
    → All Forward r
    → All (λ e. e.1 ≢ pos 0) (due (pos 0 -ℤ (now -ℤ prev)) (head ∷ r))
    → neg_part (head.dtime -ℤ (now -ℤ prev)) < 1000
    → let (sent, rest) = decrement ties now prev (head ∷ r) in
      let times = due (pos 0 -ℤ (now -ℤ prev)) (head ∷ r) in
      (sent ≡ notices (overdue times)) × (due (pos 0) rest ≡ pending times)
unfolding decrement
decrement-Fired ties now prev head r fwd apart in_time = elim (Bool-cases (leb_ℤ time (pos 0))) [
  | inl late ↦
      let late' : ltb_ℤ left.dtime (pos 0) ≡ true = rw same (below_zero time apart.0 late) in
      rw
        (
          meets_less (ties 0) left.dtime (pos 0) late',
          before_less (ties (length r + 1)) left.dtime (pos 0) late',
        )
        (fire_from ties left r time same apart (rw (sym same) in_time) fwd)
  | inr early ↦
      let early' : ltb_ℤ (pos 0) left.dtime ≡ true = rw same (above_zero time early) in
      rw
        (
          meets_more (ties 0) left.dtime (pos 0) early',
          before_more (ties (length r + 1)) left.dtime (pos 0) early',
          early,
        )
        (refl, rw (zero_plus, same))
]
  where
    time : ℤ
    time = pos 0 -ℤ (now -ℤ prev) +ℤ head.dtime

    left : ListNode
    left = record head { dtime = head.dtime -ℤ (now -ℤ prev) }

    same : left.dtime ≡ time
    same = eq_of_parts _ _ (
        omega (
          arith,
          -ℤ_parts head.dtime (now -ℤ prev),
          -ℤ_parts (pos 0) (now -ℤ prev),
          +ℤ_parts (pos 0 -ℤ (now -ℤ prev)) head.dtime,
        ))

-- A head that is due to the millisecond, and whose time comes out as 0, is the only one to end, also
-- where others are due with it.
pub decrement_exact :
    (ties : ℕ → Bool) (now prev : ℤ) (head : ListNode) (r : List ListNode)
    → ties 0 ≡ true
    → head.dtime ≡ now -ℤ prev
    → (decrement ties now prev (head ∷ r)).0 ≡ expiration head.byte_seq_num ∷ []
unfolding decrement meets
decrement_exact ties now prev head r zero e = rw (due_now, zero) refl
  where
    due_now : eq_ℤ (head.dtime -ℤ (now -ℤ prev)) (pos 0) ≡ true
    due_now = (==_iff _ _).1 (rw e (omega (arith, -ℤ_parts (now -ℤ prev) (now -ℤ prev))))
