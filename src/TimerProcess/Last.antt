-- ===== src/TimerProcess/Last.antt =====
-- `insertValue` of timerprocess.c, for a time behind all others.
use project.Base.{
  ℕ, ◌+◌, ◌≡◌, ◌⊎◌, inl, inr, refl, sym, ap, ◌∙◌, Bool, true, false, length, List, [], ◌∷◌, ◌++◌,
  append_assoc, arith, All, Bool-cases, ==_iff,
}
use project.Int.{
  ℤ, pos, ◌+ℤ◌, ◌-ℤ◌, ◌≤ℤ◌, ltb_ℤ, leb_ℤ, pos_part, neg_part, eq_of_parts, +ℤ_parts, -ℤ_parts,
}
use project.TimerProcess.{ListNode, Cursor, eq_ℤ, walk, locate, place, insert_value}
use project.TimerProcess.Ties.{before_less}
use project.TimerProcess.Schedule.{due, end, due-append}
use project.TimerProcess.Insert.{cursor, timer_at}
use project.TimerProcess.Fire.{Forward, zero_plus}

-- The time of the last node from the one in front of it.
abbrev pub last_dtime : ListNode → List ListNode → ℤ
last_dtime n [] = n.dtime
last_dtime n (m ∷ r) = last_dtime m r

pub end-≤ℤ : (t : ℤ) (ns : List ListNode) → All Forward ns → t ≤ℤ end t ns
end-≤ℤ t [] f = omega arith
end-≤ℤ t (n ∷ r) f = omega (arith, end-≤ℤ (t +ℤ n.dtime) r f.1, +ℤ_parts t n.dtime, f.0)

last_dtime-≤ℤ :
    (t : ℤ) (n : ListNode) (r : List ListNode)
    → All Forward (n ∷ r)
    → pos 0 ≤ℤ t
    → (last_dtime n r ≤ℤ end t (n ∷ r)) × (neg_part (last_dtime n r) ≡ 0)
last_dtime-≤ℤ t n [] f h = (omega (arith, +ℤ_parts t n.dtime), f.0)
last_dtime-≤ℤ t n (m ∷ r) f h =
    last_dtime-≤ℤ (t +ℤ n.dtime) m r f.1 (omega (arith, +ℤ_parts t n.dtime, f.0))

-- Where the walk ends when every node is due before the time.
record AtLast (dtime elapse : ℤ) (front : List ListNode) (n : ListNode) (r : List ListNode)
    (c : Cursor) : Type 0 where
  before : List ListNode
  tail : ListNode
  ends : c ≡ cursor before tail [] (end elapse (n ∷ r))
  whole : before ++ (tail ∷ []) ≡ front ++ (n ∷ r)
  delta : tail.dtime ≡ last_dtime n r

walk-AtLast :
    (ties : ℕ → Bool) (dtime elapse : ℤ) (front r : List ListNode) (n : ListNode)
    → All Forward (n ∷ r)
    → ltb_ℤ (end elapse (n ∷ r)) dtime ≡ true
    → AtLast dtime elapse front n r (walk ties dtime elapse front n r)
unfolding walk
walk-AtLast ties dtime elapse front [] n f h = record {
  before = front;
  tail = n;
  ends = rw (before_less (ties 1) (elapse +ℤ n.dtime) dtime h);
  whole = refl;
  delta = refl;
}
walk-AtLast ties dtime elapse front (m ∷ r) n f h =
    let le = end-≤ℤ (elapse +ℤ n.dtime) (m ∷ r) f.1 in
    let on = before_less (ties (length r + 2)) (elapse +ℤ n.dtime) dtime (ground arith) in
    let v = walk-AtLast ties dtime (elapse +ℤ n.dtime) (front ++ (n ∷ [])) r m f.1 h in
    record {
      before = v.before;
      tail = v.tail;
      ends = rw on v.ends;
      whole = v.whole ∙ append_assoc front (n ∷ []) (m ∷ r);
      delta = v.delta;
    }

place_last :
    (tie : Bool) (dtime elapse : ℤ) (port bsn : ℕ) (before : List ListNode) (tail : ListNode)
    → ltb_ℤ (elapse +ℤ tail.dtime) dtime ≡ true
    → (elapse ≡ pos 0 → tail.dtime ≡ pos 0)
    → place tie dtime port bsn (cursor before tail [] elapse)
      ≡ before ++ (tail ∷ (timer_at (dtime -ℤ elapse) port bsn ∷ []))
unfolding place
place_last tie dtime elapse port bsn before tail far start =
    let on = before_less tie (elapse +ℤ tail.dtime) dtime far in
    elim (Bool-cases (eq_ℤ elapse (pos 0))) [
      | inl zero ↦
          let e = eq_of_parts elapse (pos 0) ((==_iff _ _).0 zero) in
          rw (on, zero) (rw (start e, e))
      | inr more ↦ rw (on, more)
    ]

inserted :
    (ties : ℕ → Bool) (dtime : ℤ) (port bsn : ℕ) (head : ListNode) (r : List ListNode)
    → All Forward (head ∷ r)
    → ltb_ℤ (end (pos 0) (head ∷ r)) dtime ≡ true
    → (r ≡ []) ⊎ (ltb_ℤ (end (pos 0) (head ∷ r) +ℤ last_dtime head r) dtime ≡ true)
    → insert_value ties dtime port bsn (head ∷ r)
      ≡ (head ∷ r) ++ (timer_at (dtime -ℤ end (pos 0) (head ∷ r)) port bsn ∷ [])
unfolding insert_value locate place
inserted ties dtime port bsn head [] f behind gap =
    let h = +ℤ_parts (pos 0) head.dtime in
    let late : leb_ℤ dtime head.dtime ≡ false = ground (arith, h) in
    let other : eq_ℤ dtime head.dtime ≡ false = ground (arith, h) in
    let far = before_less (ties 0) (pos 0 +ℤ head.dtime) dtime behind in
    rw (late, other, far) (rw zero_plus refl)
inserted ties dtime port bsn head (n ∷ r) f behind (inl one) = absurd (ground arith)
inserted ties dtime port bsn head (n ∷ r) f behind (inr gap) =
    let h = +ℤ_parts (pos 0) head.dtime in
    let le = end-≤ℤ (pos 0 +ℤ head.dtime) (n ∷ r) f.1 in
    let late : leb_ℤ dtime head.dtime ≡ false = ground (arith, h) in
    let other : eq_ℤ dtime head.dtime ≡ false = ground (arith, h) in
    let total = end (pos 0) (head ∷ (n ∷ r)) in
    let v = walk-AtLast ties dtime (pos 0) [] (n ∷ r) head f behind in
    let small = last_dtime-≤ℤ (pos 0) head (n ∷ r) f (omega arith) in
    let start : total ≡ pos 0 → v.tail.dtime ≡ pos 0 = λ e.
      v.delta ∙ eq_of_parts _ _ (omega (arith, small.0, small.1, ap pos_part e, ap neg_part e)) in
    rw (late, other, v.ends)
      (place_last (ties 0) dtime total port bsn v.before v.tail (rw v.delta gap) start
        ∙ sym (append_assoc v.before (v.tail ∷ []) (timer_at (dtime -ℤ total) port bsn ∷ []))
        ∙ ap (λ (l : List ListNode). l ++ (timer_at (dtime -ℤ total) port bsn ∷ [])) v.whole)

-- In a list with no negative delta, a timer behind all others is put at the end, due at the time
-- asked for, if it is the second one or lies behind the last by more than that one lies
-- behind the one before.
pub insert_value_last :
    (ties : ℕ → Bool) (dtime : ℤ) (port bsn : ℕ) (head : ListNode) (r : List ListNode)
    → All Forward (head ∷ r)
    → ltb_ℤ (end (pos 0) (head ∷ r)) dtime ≡ true
    → (r ≡ []) ⊎ (ltb_ℤ (end (pos 0) (head ∷ r) +ℤ last_dtime head r) dtime ≡ true)
    → due (pos 0) (insert_value ties dtime port bsn (head ∷ r))
      ≡ due (pos 0) (head ∷ r) ++ ((bsn, dtime) ∷ [])
insert_value_last ties dtime port bsn head r f behind gap =
    ap (due (pos 0)) (inserted ties dtime port bsn head r f behind gap)
    ∙ due-append (pos 0) (head ∷ r) (timer_at (dtime -ℤ total) port bsn ∷ [])
    ∙ ap (λ (t : ℤ). due (pos 0) (head ∷ r) ++ ((bsn, t) ∷ [])) on_time
  where
    total : ℤ
    total = end (pos 0) (head ∷ r)

    on_time : total +ℤ (dtime -ℤ total) ≡ dtime
    on_time = eq_of_parts _ _ (omega (arith, +ℤ_parts total (dtime -ℤ total), -ℤ_parts dtime total))
