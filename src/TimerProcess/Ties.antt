-- ===== src/TimerProcess/Ties.antt =====
-- The comparisons of timerprocess.c where there is no tie.
use project.Base.{◌≡◌, ◌≢◌, Bool, true, false, arith, refl, ==_iff, Bool-cases, inl, inr}
use project.Int.{ℤ, pos, ltb_ℤ, leb_ℤ, eq_of_parts}
use project.TimerProcess.{eq_ℤ, before, meets}

apart_below : (a b : ℤ) → ltb_ℤ a b ≡ true → eq_ℤ a b ≡ false
apart_below a b less = ground arith

apart_above : (a b : ℤ) → ltb_ℤ b a ≡ true → eq_ℤ a b ≡ false
apart_above a b more = ground arith

pub before_less : (tie : Bool) (a b : ℤ) → ltb_ℤ a b ≡ true → before tie a b ≡ true
unfolding before
before_less tie a b less = rw (apart_below a b less, less) refl

pub before_more : (tie : Bool) (a b : ℤ) → ltb_ℤ b a ≡ true → before tie a b ≡ false
unfolding before
before_more tie a b more = rw (apart_above a b more) (ground arith)

pub meets_less : (tie : Bool) (a b : ℤ) → ltb_ℤ a b ≡ true → meets tie a b ≡ false
unfolding meets
meets_less tie a b less = rw (apart_below a b less) refl

pub meets_more : (tie : Bool) (a b : ℤ) → ltb_ℤ b a ≡ true → meets tie a b ≡ false
unfolding meets
meets_more tie a b more = rw (apart_above a b more) refl

-- What is not 0 and not above it is below it.
pub below_zero : (d : ℤ) → d ≢ pos 0 → leb_ℤ d (pos 0) ≡ true → ltb_ℤ d (pos 0) ≡ true
below_zero d apart late = elim (Bool-cases (eq_ℤ d (pos 0))) [
  | inl e ↦ absurd (apart (eq_of_parts _ _ ((==_iff _ _).0 e)))
  | inr e ↦ ground arith
]

pub above_zero : (d : ℤ) → leb_ℤ d (pos 0) ≡ false → ltb_ℤ (pos 0) d ≡ true
above_zero d early = ground arith
