-- ===== src/Sender/Rtt.antt =====
-- The round-trip estimate of cbuffer.c, over an interface for `double`.
use project.Base.{◌-◌, ◌/◌, ◌≡◌, refl, Bool, false, if◌then◌else◌}
use project.Int.{ℤ, pos, ◌-ℤ◌}

-- The operations on `double` that the file uses, and the conversion from `int`.
pub record Float : Type 1 where
  pub Double : Type 0
  pub of_int : ℤ → Double
  pub add : Double → Double → Double
  pub sub : Double → Double → Double
  pub mul : Double → Double → Double
  pub div : Double → Double → Double
  pub fabs : Double → Double
  pub eqb : Double → Double → Bool

-- What IEEE arithmetic gives for the finite values that occur: 1 and 0 as factors, 0 as a summand
-- (the two zeros taken for one).
pub record IsFinite (fl : Float) : Type 0 where
  pub one_mul : (x : fl.Double) → fl.mul (fl.of_int (pos 1)) x ≡ x
  pub zero_mul : (x : fl.Double) → fl.mul (fl.of_int (pos 0)) x ≡ fl.of_int (pos 0)
  pub add_zero : (x : fl.Double) → fl.add x (fl.of_int (pos 0)) ≡ x

-- `struct timespec`
pub record Timespec : Type 0 where
  pub tv_sec : ℤ
  pub tv_nsec : ℤ

-- `SRTT`, `RTTVAR` and `RTO`
pub record Estimator (D : Type 0) : Type 0 where
  pub srtt : D
  pub rttvar : D
  pub rto : D

module _ (fl : Float) where
  open fl use {Double, of_int, add, sub, mul, div, fabs, eqb}

  pub initial : Estimator Double
  initial = record { srtt = of_int (pos 0); rttvar = of_int (pos 0); rto = of_int (pos 1000) }

  -- `delta`, in milliseconds
  pub elapsed : Timespec → Timespec → Double
  elapsed start stop =
      add (mul (of_int (stop.tv_sec -ℤ start.tv_sec)) (of_int (pos 1000)))
        (div (of_int (stop.tv_nsec -ℤ start.tv_nsec)) (of_int (pos 1000000)))

  -- The first test of `timeComps`.
  first_sample : Estimator Double → Double → Estimator Double
  first_sample e delta = if eqb e.srtt (of_int (pos 0)) then record e { srtt = delta } else e

  -- The last branch. The factors are quotients of `int`s, as C computes them.
  smooth : Estimator Double → Double → Estimator Double
  smooth e delta =
      let srtt' = add (mul (of_int (pos (1 - 1 / 8))) e.srtt) (mul (of_int (pos (1 / 8))) delta) in
      let rttvar' =
        add (mul (of_int (pos (1 - 1 / 4))) e.rttvar)
          (mul (of_int (pos (1 / 4))) (fabs (sub srtt' delta))) in
      record { srtt = srtt'; rttvar = rttvar'; rto = add srtt' (mul (of_int (pos 4)) rttvar') }

  -- `timeComps(delta)`
  pub time_comps : Estimator Double → Double → Estimator Double
  time_comps e delta =
      let e' = first_sample e delta in
      if eqb e'.rttvar (of_int (pos 0))
      then record e' { rttvar = div delta (of_int (pos 2)) }
      else smooth e' delta

  -- If the operations on `double` are exact for 0 and 1, a sample changes neither estimate once
  -- both are not 0, and the timeout is made of them: the smoothing factors 1/8 and 1/4 are 0 in
  -- C.
  pub time_comps_frozen :
      (e : Estimator Double) (delta : Double)
      → IsFinite fl
      → eqb e.srtt (of_int (pos 0)) ≡ false
      → eqb e.rttvar (of_int (pos 0)) ≡ false
      → time_comps e delta ≡ record e { rto = add e.srtt (mul (of_int (pos 4)) e.rttvar) }
  unfolding time_comps first_sample smooth
  time_comps_frozen e delta law hs hv =
      rw (hs, hv) (simp (law.one_mul, law.zero_mul, law.add_zero) refl)
