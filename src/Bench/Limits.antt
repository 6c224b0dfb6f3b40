-- ===== src/Bench/Limits.antt =====
-- The torques that the extreme test asks for.
use motor_test.Base.{ℕ, zero, suc, ◌+◌, ◌*◌, ◌^◌, ◌≢◌, refl, arith, true, false, if◌then◌else◌, All}
use motor_test.Float.{Float, nan, inf, fin, float32, float64, lt, gt, neg, lit, mul, magnitude}
use motor_test.Float.Convert.{narrow, widen}
use motor_test.MathOps.Quantise.{InRange}
use motor_test.Pid.Bounds.{IsLimit}
use motor_test.Float.{unlike}
use motor_test.Float.Magnitude.{mag_mono}
use motor_test.Float.Finite.{IsFinite, finish-fits, finish-real, mul-real, add-real}
use motor_test.Bench.{Action, set_tor}
use motor_test.Bench.Ramps.{extreme_current, extreme_rounds}

-- The two limits, one after the other.
cut : Float → Float → Float
cut target drawn =
    let capped = if gt drawn target then target else drawn in
    if lt capped (neg target) then neg target else capped

cut-InRange :
    (target drawn : Float)
    → IsLimit target
    → drawn ≢ nan
    → InRange (neg target) target (cut target drawn)
unfolding cut lt neg
cut-InRange target drawn h real = record {
  real = ground (arith, h.real, h.not_negative);
  from_low = ground (arith, h.real, h.not_negative);
  to_high = ground (arith, h.real, h.not_negative);
}

-- Twice the target is a finite `float`.
abbrev pub HasDouble : Float → Type 0
HasDouble target = IsFinite (mul float32 target (lit float32 false 2 1))

minus-IsFinite :
    (target : Float) → HasDouble target → IsFinite (mul float32 (lit float32 true 1 1) target)
unfolding lit magnitude mul
minus-IsFinite nan h = h
minus-IsFinite (inf s) h = absurd h
minus-IsFinite (fin s m) h =
    (finish-fits (unlike true s) (unlike s false) _ _ h
      (mag_mono (2 ^ 149 * m) (m * 2 ^ 150) (2 ^ 149) (omega arith) (omega arith))).0

widen-IsFinite : (x : Float) → IsFinite x → IsFinite (widen x)
unfolding widen
widen-IsFinite nan h = h
widen-IsFinite (inf s) h = h
widen-IsFinite (fin s m) h = tt

narrow-real : (x : Float) → x ≢ nan → narrow x ≢ nan
unfolding narrow
narrow-real nan r = absurd (r refl)
narrow-real (inf s) r = λ e. cc
narrow-real (fin s m) r = finish-real float32 s _

doubled-real : (x : Float) → x ≢ nan → mul float64 x (lit float64 false 2 1) ≢ nan
unfolding lit magnitude mul
doubled-real nan r = absurd (r refl)
doubled-real (inf s) r = λ e. cc
doubled-real (fin s m) r = finish-real float64 (unlike s false) _

extreme_current-InRange :
    (target ratio : Float)
    → IsLimit target
    → HasDouble target
    → IsFinite ratio
    → InRange (neg target) target (extreme_current target ratio)
unfolding extreme_current cut
extreme_current-InRange target ratio h double finite =
    let two = lit float32 false 2 1 in
    let random =
      mul-real float64 ratio (widen (mul float32 target two)) finite
        (widen-IsFinite (mul float32 target two) double) in
    let minus = widen-IsFinite _ (minus-IsFinite target double) in
    cut-InRange target _ h (narrow-real _ (doubled-real _ (add-real float64 _ _ minus random)))

-- A torque that an action sets is a number within the target.
abbrev pub TorqueWithin : Float → Action → Type 0
TorqueWithin target (set_tor i tor) = InRange (neg target) target tor
TorqueWithin target _ = Unit

-- For a target that is not negative and can be doubled as a `float`, and finite random ratios, every
-- torque that the rounds of the extreme test set is a number within the target, and not a NaN.
pub extreme_rounds-Within :
    (target : Float) (draw : ℕ → Float) (left i : ℕ)
    → IsLimit target
    → HasDouble target
    → ((k : ℕ) → IsFinite (draw k))
    → All (TorqueWithin target) (extreme_rounds target draw left i)
unfolding extreme_rounds
extreme_rounds-Within target draw zero i h double finite = tt
extreme_rounds-Within target draw (suc left) i h double finite = (
  extreme_current-InRange target (draw (2 * i)) h double (finite (2 * i)),
  (
    extreme_current-InRange target (draw (2 * i + 1)) h double (finite (2 * i + 1)),
    (tt, extreme_rounds-Within target draw left (i + 1) h double finite),
  ),
)
