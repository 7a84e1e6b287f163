-- ===== src/TimerProcess/Gap.antt =====
-- `insertValue` of timerprocess.c, for a time between two timers and for one shortly behind the
-- last.
use project.Base.{
  ℕ, ◌+◌, ◌≡◌, refl, sym, ap, ◌∙◌, Bool, true, false, length, List, [], ◌∷◌, ◌++◌, append_assoc,
  arith, All,
}
use project.Int.{ℤ, pos, ◌+ℤ◌, ◌-ℤ◌, ltb_ℤ, leb_ℤ, pos_part, neg_part, +ℤ_parts, int_laws}
use project.TimerProcess.{ListNode, eq_ℤ, before, walk, locate, link, place, insert_value}
use project.TimerProcess.Ties.{before_less, before_more}
use project.TimerProcess.Schedule.{due, end, end-append, due-append, due-link}
use project.TimerProcess.Insert.{timer_at, walk_stop}
use project.TimerProcess.Fire.{Forward}
use project.TimerProcess.Last.{end-≤ℤ}

-- The walk goes over the nodes that are due before the time.
walk_over :
    (ties : ℕ → Bool) (dtime elapse : ℤ) (front ps rest : List ListNode) (p n : ListNode)
    → All Forward (p ∷ ps)
    → ltb_ℤ (end elapse (p ∷ ps)) dtime ≡ true
    → walk ties dtime elapse front p (ps ++ (n ∷ rest))
      ≡ walk ties dtime (end elapse (p ∷ ps)) (front ++ (p ∷ ps)) n rest
unfolding walk
walk_over ties dtime elapse front [] rest p n f h =
    rw (before_less (ties (length rest + 2)) (elapse +ℤ p.dtime) dtime h) refl
walk_over ties dtime elapse front (q ∷ ps) rest p n f h =
    let le = end-≤ℤ (elapse +ℤ p.dtime) (q ∷ ps) f.1 in
    let on =
      before_less (ties (length (ps ++ (n ∷ rest)) + 2)) (elapse +ℤ p.dtime) dtime (ground arith) in
    rw on (
      walk_over ties dtime (elapse +ℤ p.dtime) (front ++ (p ∷ [])) ps rest q n f.1 h
      ∙ ap (λ (l : List ListNode). walk ties dtime (end (elapse +ℤ p.dtime) (q ∷ ps)) l n rest)
          (append_assoc front (p ∷ []) (q ∷ ps)))

locate_behind :
    (ties : ℕ → Bool) (dtime : ℤ) (ps rest : List ListNode) (p n : ListNode)
    → eq_ℤ dtime p.dtime ≡ false
    → locate ties dtime p (ps ++ (n ∷ rest)) ≡ walk ties dtime (pos 0) [] p (ps ++ (n ∷ rest))
unfolding locate
locate_behind ties dtime [] rest p n other = rw other refl
locate_behind ties dtime (q ∷ ps) rest p n other = rw other refl

-- Behind the head the time is looked for by the walk.
placed :
    (ties : ℕ → Bool) (dtime : ℤ) (port bsn : ℕ) (ps rest : List ListNode) (p n : ListNode)
    → All Forward (p ∷ ps)
    → ltb_ℤ (end (pos 0) (p ∷ ps)) dtime ≡ true
    → insert_value ties dtime port bsn (p ∷ (ps ++ (n ∷ rest)))
      ≡ place (ties 0) dtime port bsn (walk ties dtime (end (pos 0) (p ∷ ps)) (p ∷ ps) n rest)
unfolding insert_value
placed ties dtime port bsn ps rest p n f h =
    let le = end-≤ℤ (pos 0 +ℤ p.dtime) ps f.1 in
    let at = +ℤ_parts (pos 0) p.dtime in
    let late : leb_ℤ dtime p.dtime ≡ false = ground (arith, at) in
    let other : eq_ℤ dtime p.dtime ≡ false = ground (arith, at) in
    rw (late, locate_behind ties dtime ps rest p n other)
      (ap (place (ties 0) dtime port bsn) (walk_over ties dtime (pos 0) [] ps rest p n f h))

-- In a list with no negative delta, a timer for a time behind some timers, and earlier than the
-- next, which is not the last, is linked behind that one: it is due later than asked for, by what
-- that one counts from the timer in front of it, and the others keep their times.
pub insert_value_gap :
    (ties : ℕ → Bool) (dtime : ℤ) (port bsn : ℕ) (ps rest : List ListNode) (p n m : ListNode)
    → All Forward (p ∷ ps)
    → ltb_ℤ (end (pos 0) (p ∷ ps)) dtime ≡ true
    → ltb_ℤ dtime (end (pos 0) (p ∷ ps) +ℤ n.dtime) ≡ true
    → due (pos 0) (insert_value ties dtime port bsn (p ∷ (ps ++ (n ∷ (m ∷ rest)))))
      ≡ due (pos 0) ((p ∷ ps) ++ (n ∷ []))
        ++ ((bsn, dtime +ℤ n.dtime) ∷ due (end (pos 0) (p ∷ ps) +ℤ n.dtime) (m ∷ rest))
unfolding place
insert_value_gap ties dtime port bsn ps rest p n m f behind sooner =
    ap (due (pos 0)) (
      placed ties dtime port bsn ps (m ∷ rest) p n f behind
      ∙ ap (place (ties 0) dtime port bsn) (walk_stop ties dtime total (p ∷ ps) (m ∷ rest) n sooner)
      ∙ sym (append_assoc (p ∷ ps) (n ∷ []) (link node (m ∷ rest))))
    ∙ due-append (pos 0) ((p ∷ ps) ++ (n ∷ [])) (link node (m ∷ rest))
    ∙ ap (λ (l : List (ℕ × ℤ)). due (pos 0) ((p ∷ ps) ++ (n ∷ [])) ++ l)
        (ap (λ (t : ℤ). due t (link node (m ∷ rest))) (end-append (pos 0) (p ∷ ps) (n ∷ []))
          ∙ due-link (total +ℤ n.dtime) node (m ∷ rest)
          ∙ ap (λ (t : ℤ). (bsn, t) ∷ due (total +ℤ n.dtime) (m ∷ rest)) late)
  where
    total : ℤ
    total = end (pos 0) (p ∷ ps)

    node : ListNode
    node = timer_at (dtime -ℤ total) port bsn

    late : total +ℤ n.dtime +ℤ (dtime -ℤ total) ≡ dtime +ℤ n.dtime
    late = omega int_laws

-- In a list with no negative delta, a timer behind the last of several, by less than what that one
-- counts from the timer in front of it, is linked in front of it: it is due earlier than asked for, by
-- that much.
pub insert_value_near :
    (ties : ℕ → Bool) (dtime : ℤ) (port bsn : ℕ) (ps : List ListNode) (p n : ListNode)
    → All Forward (p ∷ ps)
    → Forward n
    → ltb_ℤ (end (pos 0) (p ∷ ps) +ℤ n.dtime) dtime ≡ true
    → ltb_ℤ dtime (end (pos 0) (p ∷ ps) +ℤ n.dtime +ℤ n.dtime) ≡ true
    → due (pos 0) (insert_value ties dtime port bsn (p ∷ (ps ++ (n ∷ []))))
      ≡ due (pos 0) (p ∷ ps) ++ ((bsn, dtime -ℤ n.dtime) ∷ due (end (pos 0) (p ∷ ps)) (n ∷ []))
unfolding walk place
insert_value_near ties dtime port bsn ps p n f fwd behind near =
    ap (due (pos 0)) in_front
    ∙ due-append (pos 0) (p ∷ ps) (link node (n ∷ []))
    ∙ ap (λ (l : List (ℕ × ℤ)). due (pos 0) (p ∷ ps) ++ l)
        (due-link total node (n ∷ []) ∙ ap (λ (t : ℤ). (bsn, t) ∷ due total (n ∷ [])) early)
  where
    total : ℤ
    total = end (pos 0) (p ∷ ps)

    sum :
        pos_part (total +ℤ n.dtime) + neg_part total + neg_part n.dtime
        ≡ neg_part (total +ℤ n.dtime) + pos_part total + pos_part n.dtime
    sum = +ℤ_parts total n.dtime

    node : ListNode
    node = timer_at (dtime -ℤ (total +ℤ n.dtime)) port bsn

    on : before (ties 1) (total +ℤ n.dtime) dtime ≡ true
    on = before_less (ties 1) (total +ℤ n.dtime) dtime behind

    not_far : before (ties 0) (total +ℤ n.dtime +ℤ n.dtime) dtime ≡ false
    not_far = before_more (ties 0) (total +ℤ n.dtime +ℤ n.dtime) dtime near

    in_front :
        insert_value ties dtime port bsn (p ∷ (ps ++ (n ∷ []))) ≡ (p ∷ ps) ++ link node (n ∷ [])
    in_front =
        placed ties dtime port bsn ps [] p n f (ground (arith, sum)) ∙ rw on (rw not_far refl)

    early : total +ℤ (dtime -ℤ (total +ℤ n.dtime)) ≡ dtime -ℤ n.dtime
    early = omega int_laws
