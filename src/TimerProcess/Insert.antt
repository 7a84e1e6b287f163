-- ===== src/TimerProcess/Insert.antt =====
-- `insertValue` of timerprocess.c: what a new timer does to the schedule.
use project.Base.{
  ℕ, ◌+◌, ◌≡◌, inl, inr, refl, ap, ap₂, ◌∙◌, subst, Bool, true, false, length, List, [], ◌∷◌, ◌++◌,
  append_assoc, arith, if◌then◌else◌, Bool-cases,
}
use project.Int.{ℤ, pos, ◌+ℤ◌, ◌-ℤ◌, ltb_ℤ, leb_ℤ, +ℤ_parts}
use project.TimerProcess.{ListNode, Cursor, eq_ℤ, before, walk, locate, link, place, insert_value}
use project.TimerProcess.Ties.{before_more}
use project.TimerProcess.Schedule.{due, end, due-append, due-link}

-- Some place of the schedule `before` got one entry more, for the number `bsn` at time `t`.
pub record Added (bsn : ℕ) (old new : List (ℕ × ℤ)) : Type 0 where
  pub front : List (ℕ × ℤ)
  pub behind : List (ℕ × ℤ)
  pub time : ℤ
  pub old_is : old ≡ front ++ behind
  pub new_is : new ≡ front ++ ((bsn, time) ∷ behind)

-- The cursor stands in the list.
abbrev pub Covers : List ListNode → Cursor → Type 0
Covers nodes c = c.front ++ (c.current ∷ c.behind) ≡ nodes

walk-Covers :
    (ties : ℕ → Bool) (dtime elapse : ℤ) (front behind : List ListNode) (current : ListNode)
    → Covers (front ++ (current ∷ behind)) (walk ties dtime elapse front current behind)
unfolding walk
walk-Covers ties dtime elapse front [] current = refl
walk-Covers ties dtime elapse front (n ∷ r) current =
    elim (Bool-cases (before (ties (length r + 2)) (elapse +ℤ current.dtime) dtime)) [
      | inl on ↦ rw on (
          walk-Covers ties dtime (elapse +ℤ current.dtime) (front ++ (current ∷ [])) r n
          ∙ append_assoc front (current ∷ []) (n ∷ r))
      | inr stop ↦ rw stop
    ]

locate-Covers :
    (ties : ℕ → Bool) (dtime : ℤ) (head : ListNode) (r : List ListNode)
    → Covers (head ∷ r) (locate ties dtime head r)
unfolding locate
locate-Covers ties dtime head [] = refl
locate-Covers ties dtime head (n ∷ r) = elim (Bool-cases (eq_ℤ dtime head.dtime)) [
  | inl e ↦ rw e
  | inr e ↦ rw e (walk-Covers ties dtime (pos 0) [] (n ∷ r) head)
]

-- A node put between `front` and `behind`.
Added-link :
    (front behind : List ListNode) (node : ListNode)
    → Added node.byte_seq_num
        (due (pos 0) (front ++ behind))
        (due (pos 0) (front ++ link node behind))
Added-link front behind node = record {
  front = due (pos 0) front;
  behind = due (end (pos 0) front) behind;
  time = end (pos 0) front +ℤ node.dtime;
  old_is = due-append (pos 0) front behind;
  new_is =
      due-append (pos 0) front (link node behind)
      ∙ ap (λ (l : List (ℕ × ℤ)). due (pos 0) front ++ l) (due-link _ node behind);
}

-- The same behind the cursor's node.
Added-behind :
    (front behind : List ListNode) (current node : ListNode)
    → Added node.byte_seq_num
        (due (pos 0) (front ++ (current ∷ behind)))
        (due (pos 0) (front ++ (current ∷ link node behind)))
Added-behind front behind current node =
    subst
      (λ (t : List ListNode × List ListNode).
        Added node.byte_seq_num (due (pos 0) t.0) (due (pos 0) t.1))
      (ap₂ (λ (x y : List ListNode). (x, y)) (append_assoc front (current ∷ []) behind)
        (append_assoc front (current ∷ []) (link node behind)))
      (Added-link (front ++ (current ∷ [])) behind node)

abbrev pub cursor : List ListNode → ListNode → List ListNode → ℤ → Cursor
cursor front current behind elapse = record {
  front = front;
  current = current;
  behind = behind;
  elapse = elapse;
}

abbrev pub timer_at : ℤ → ℕ → ℕ → ListNode
timer_at dtime port bsn = record { dtime = dtime; port = port; byte_seq_num = bsn }

place-Added :
    (tie : Bool) (dtime elapse : ℤ) (port bsn : ℕ) (front behind : List ListNode)
    (current : ListNode)
    → Added bsn
        (due (pos 0) (front ++ (current ∷ behind)))
        (due (pos 0) (place tie dtime port bsn (cursor front current behind elapse)))
unfolding place
place-Added tie dtime elapse port bsn front (n ∷ r) current =
    Added-behind front (n ∷ r) current (timer_at (dtime -ℤ elapse) port bsn)
place-Added tie dtime elapse port bsn front [] current =
    elim (Bool-cases (before tie (elapse +ℤ current.dtime) dtime)) [
      | inl far ↦ rw far (elim (Bool-cases (eq_ℤ elapse (pos 0))) [
        | inl first ↦ rw first (
            unfold link in
            Added-behind front [] current (timer_at (dtime -ℤ current.dtime) port bsn))
        | inr later ↦
            rw later
              (unfold link in Added-behind front [] current (timer_at (dtime -ℤ elapse) port bsn))
      ])
      | inr near ↦ rw near (Added-link front (current ∷ []) (timer_at (dtime -ℤ elapse) port bsn))
    ]

pub walk_stop :
    (ties : ℕ → Bool) (dtime elapse : ℤ) (front behind : List ListNode) (current : ListNode)
    → ltb_ℤ dtime (elapse +ℤ current.dtime) ≡ true
    → walk ties dtime elapse front current behind ≡ cursor front current behind elapse
unfolding walk
walk_stop ties dtime elapse front [] current stop =
    rw (before_more (ties 1) (elapse +ℤ current.dtime) dtime stop)
walk_stop ties dtime elapse front (n ∷ r) current stop =
    rw (before_more (ties (length r + 2)) (elapse +ℤ current.dtime) dtime stop)

not_behind :
    (dtime h : ℤ) → leb_ℤ dtime h ≡ true → eq_ℤ dtime h ≡ false → ltb_ℤ dtime (pos 0 +ℤ h) ≡ true
not_behind dtime h early other = ground (arith, +ℤ_parts (pos 0) h)

-- For a time no later than the head's, the cursor stays there.
pub locate-head :
    (ties : ℕ → Bool) (dtime : ℤ) (head : ListNode) (r : List ListNode)
    → leb_ℤ dtime head.dtime ≡ true
    → locate ties dtime head r ≡ cursor [] head r (if eq_ℤ dtime head.dtime then dtime else pos 0)
unfolding locate
locate-head ties dtime head [] early = refl
locate-head ties dtime head (n ∷ r) early = elim (Bool-cases (eq_ℤ dtime head.dtime)) [
  | inl e ↦ rw e
  | inr e ↦
      rw e (walk_stop ties dtime (pos 0) [] (n ∷ r) head (not_behind dtime head.dtime early e))
]

-- `insertValue` adds one timer and changes no other: whatever branch it takes, the schedule of
-- due times is the old one with one entry more for its number.
pub insert_value-Added :
    (ties : ℕ → Bool) (dtime : ℤ) (port bsn : ℕ) (nodes : List ListNode)
    → Added bsn (due (pos 0) nodes) (due (pos 0) (insert_value ties dtime port bsn nodes))
unfolding insert_value
insert_value-Added ties dtime port bsn [] = record {
  front = [];
  behind = [];
  time = pos 0 +ℤ dtime;
  old_is = refl;
  new_is = refl;
}
insert_value-Added ties dtime port bsn (head ∷ r) = elim (Bool-cases (leb_ℤ dtime head.dtime)) [
  | inl early ↦
      rw (early, locate-head ties dtime head r early)
        (Added-link [] (head ∷ r)
          (timer_at (dtime -ℤ (if eq_ℤ dtime head.dtime then dtime else pos 0)) port bsn))
  | inr late ↦ rw late (
      subst
        (λ (t : List ListNode).
          Added bsn (due (pos 0) t)
            (due (pos 0) (place (ties 0) dtime port bsn (locate ties dtime head r))))
        (locate-Covers ties dtime head r) (place-Added (ties 0) dtime _ port bsn _ _ _))
]
