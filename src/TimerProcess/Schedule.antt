-- ===== src/TimerProcess/Schedule.antt =====
-- When the timers of timerprocess.c are due: what a delta list means.
use project.Base.{ℕ, ◌≡◌, refl, ap, List, [], ◌∷◌, ◌++◌, arith}
use project.Int.{ℤ, ◌+ℤ◌, ◌-ℤ◌, eq_of_parts, +ℤ_parts, -ℤ_parts}
use project.TimerProcess.{ListNode, link}

-- The packet numbers with the times that they are due at, if the list starts to count at `t`.
abbrev pub due : ℤ → List ListNode → List (ℕ × ℤ)
due t [] = []
due t (n ∷ r) = (n.byte_seq_num, t +ℤ n.dtime) ∷ due (t +ℤ n.dtime) r

-- When the last timer is due.
abbrev pub end : ℤ → List ListNode → ℤ
end t [] = t
end t (n ∷ r) = end (t +ℤ n.dtime) r

pub due-append : (t : ℤ) (xs ys : List ListNode) → due t (xs ++ ys) ≡ due t xs ++ due (end t xs) ys
due-append t [] ys = refl
due-append t (x ∷ xs) ys =
    ap (λ (l : List (ℕ × ℤ)). (x.byte_seq_num, t +ℤ x.dtime) ∷ l) (due-append (t +ℤ x.dtime) xs ys)

pub end-append : (t : ℤ) (xs ys : List ListNode) → end t (xs ++ ys) ≡ end (end t xs) ys
end-append t [] ys = refl
end-append t (x ∷ xs) ys = end-append (t +ℤ x.dtime) xs ys

pub +ℤ_-ℤ : (t a d : ℤ) → (t +ℤ d) +ℤ (a -ℤ d) ≡ t +ℤ a
+ℤ_-ℤ t a d =
    eq_of_parts _ _
      (omega (arith, +ℤ_parts (t +ℤ d) (a -ℤ d), +ℤ_parts t d, -ℤ_parts a d, +ℤ_parts t a))

-- `link` puts its node in front and leaves the times of the others alone.
pub due-link :
    (t : ℤ) (node : ListNode) (rest : List ListNode)
    → due t (link node rest) ≡ (node.byte_seq_num, t +ℤ node.dtime) ∷ due t rest
unfolding link
due-link t node [] = refl
due-link t node (n ∷ r) =
    ap (λ (l : List (ℕ × ℤ)). (node.byte_seq_num, t +ℤ node.dtime) ∷ l)
      (rw (+ℤ_-ℤ t n.dtime node.dtime))
