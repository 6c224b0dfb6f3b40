-- ===== src/Pid/Range.antt =====
-- With numbers as its inputs, and gains that do not overflow, the controller never makes a NaN.
use motor_test.Base.{◌≤◌, ◌≢◌, refl, arith}
use motor_test.Base.{List, [], ◌∷◌, All}
use motor_test.Float.{Float, nan, inf, fin, float32, lt, neg, add, sub, mul}
use motor_test.MathOps.Quantise.{InRange}
use motor_test.Float.Finite.{
  IsFinite, size, finite-real, add-real, real-add, neg-IsFinite, mul-fits, sub-fits,
}
use motor_test.Pid.{PidControl, pid_limit, pid_update}
use motor_test.Pid.Bounds.{IsLimit, HasLimits, pid_limit-InRange, run}

-- A number in a range that is finite is finite, and no larger.
inside :
    (max x : Float)
    → IsFinite max
    → IsLimit max
    → InRange (neg max) max x
    → IsFinite x × (size x ≤ size max)
unfolding lt neg
inside nan x f l r = absurd f
inside (inf s) x f l r = absurd f
inside (fin s m) nan f l r = absurd (r.real refl)
inside (fin s m) (inf t) f l r = absurd (ground (arith, r.from_low, r.to_high))
inside (fin s m) (fin t n) f l r = (tt, ground (arith, r.from_low, r.to_high, l.not_negative))

-- The gains of a controller with finite limits do not overflow.
pub record HasRoom (pid : PidControl) : Type 0 where
  pub limits : HasLimits pid
  pub error_finite : IsFinite pid.error_max
  pub error_all_finite : IsFinite pid.error_all_max
  pub error_gain : IsFinite (mul float32 pid.error_max pid.kp)
  pub error_all_gain : IsFinite (mul float32 pid.error_all_max pid.ki)
  pub span : IsFinite (sub float32 pid.error_max (neg pid.error_max))
  pub slope_gain : IsFinite (mul float32 (sub float32 pid.error_max (neg pid.error_max)) pid.kd)

-- The three limited quantities are numbers within their limits.
pub record IsInRange (pid : PidControl) : Type 0 where
  pub error_in : InRange (neg pid.error_max) pid.error_max pid.error
  pub error_all_in : InRange (neg pid.error_all_max) pid.error_all_max pid.error_all
  pub output_in : InRange (neg pid.output_max) pid.output_max pid.output

-- One update with a desired value that is a number and a finite measured value.
pub pid_update-IsInRange :
    (pid : PidControl)
    → HasRoom pid
    → IsInRange pid
    → pid.des ≢ nan
    → IsFinite pid.input
    → IsInRange (pid_update pid)
unfolding pid_update
pid_update-IsInRange pid room r des input =
    let limits = room.limits in
    let real = real-add float32 pid.des (neg pid.input) des (neg-IsFinite pid.input input) in
    let error = pid_limit (sub float32 pid.des pid.input) pid.error_max in
    let error_in : InRange (neg pid.error_max) pid.error_max error =
      pid_limit-InRange _ pid.error_max limits.error_limit (unfold sub in real) in
    let now = inside pid.error_max error room.error_finite limits.error_limit error_in in
    let last = inside pid.error_max pid.error room.error_finite limits.error_limit r.error_in in
    let before =
      inside pid.error_all_max pid.error_all room.error_all_finite limits.error_all_limit
        r.error_all_in in
    let error_all = pid_limit (add float32 pid.error_all error) pid.error_all_max in
    let error_all_in : InRange (neg pid.error_all_max) pid.error_all_max error_all =
      pid_limit-InRange _ pid.error_all_max limits.error_all_limit
        (add-real float32 pid.error_all error (before.0) error_in.real) in
    let all =
      inside pid.error_all_max error_all room.error_all_finite limits.error_all_limit
        error_all_in in
    let slope =
      sub-fits pid.error_max error pid.error room.span (now.0) (last.0) (now.1) (last.1) in
    let p = mul-fits error pid.error_max pid.kp (now.0) (now.1) room.error_gain in
    let i = mul-fits error_all pid.error_all_max pid.ki (all.0) (all.1) room.error_all_gain in
    let d = mul-fits _ _ pid.kd (slope.0) (slope.1) room.slope_gain in
    record {
      error_in = error_in;
      error_all_in = error_all_in;
      output_in =
          pid_limit-InRange _ pid.output_max limits.output_limit
            (real-add float32 _ _ (add-real float32 _ _ p (finite-real _ i)) d);
    }

pid_update-HasRoom : (pid : PidControl) → HasRoom pid → HasRoom (pid_update pid)
unfolding pid_update
pid_update-HasRoom pid room = record {
  limits = record {
    error_limit = room.limits.error_limit;
    error_all_limit = room.limits.error_all_limit;
    output_limit = room.limits.output_limit;
  };
  error_finite = room.error_finite;
  error_all_finite = room.error_all_finite;
  error_gain = room.error_gain;
  error_all_gain = room.error_all_gain;
  span = room.span;
  slope_gain = room.slope_gain;
}

-- Desired values that are numbers, and finite measured values.
abbrev pub IsRound : Float × Float → Type 0
IsRound r = (r.0 ≢ nan) × IsFinite (r.1)

-- A controller whose limits are finite and whose gains do not overflow on them, in a state with its error,
-- accumulated error and output in range, stays so over every run of desired values that are numbers and
-- measured values that are finite: all three are numbers within their limits at the end, and not NaNs.
pub run-IsInRange :
    (pid : PidControl) (rounds : List (Float × Float))
    → HasRoom pid
    → IsInRange pid
    → All IsRound rounds
    → IsInRange (run pid rounds)
unfolding run
run-IsInRange pid [] room r h = r
run-IsInRange pid ((des, input) ∷ rounds) room r h =
    let moved : PidControl = record pid { des = des; input = input } in
    let start : HasRoom moved = record {
      limits = record {
        error_limit = room.limits.error_limit;
        error_all_limit = room.limits.error_all_limit;
        output_limit = room.limits.output_limit;
      };
      error_finite = room.error_finite;
      error_all_finite = room.error_all_finite;
      error_gain = room.error_gain;
      error_all_gain = room.error_all_gain;
      span = room.span;
      slope_gain = room.slope_gain;
    } in
    let state : IsInRange moved = record {
      error_in = r.error_in;
      error_all_in = r.error_all_in;
      output_in = r.output_in;
    } in
    run-IsInRange (pid_update moved) rounds (pid_update-HasRoom moved start)
      (pid_update-IsInRange moved start state (h.0.0) (h.0.1)) (h.1)
