-- ===== src/Pid/Bounds.antt =====
-- What the limits of the controller guarantee, at one update and along every run of inputs.
use motor_test.Base.{◌≡◌, ◌≢◌, ◌⊎◌, inl, inr, arith, false, List, [], ◌∷◌}
use motor_test.Float.{Float, nan, inf, fin, zero_float, lt, neg}
use motor_test.MathOps.Quantise.{InRange}
use motor_test.Pid.{PidControl, pid_limit, pid_update}

-- A number from `-max` to `max`, or a NaN, which `pid_limit` lets through.
abbrev pub NanOrWithin : Float → Float → Type 0
NanOrWithin max val = (val ≡ nan) ⊎ InRange (neg max) max val

-- A limit that is a number and not negative.
pub record IsLimit (max : Float) : Type 0 where
  pub real : max ≢ nan
  pub not_negative : lt max zero_float ≡ false

-- Any number is limited, and a NaN stays one.
pub pid_limit-InRange :
    (val max : Float) → IsLimit max → val ≢ nan → InRange (neg max) max (pid_limit val max)
unfolding pid_limit lt neg
pid_limit-InRange val max h real = record {
  real = ground (arith, h.real, h.not_negative);
  from_low = ground (arith, h.real, h.not_negative);
  to_high = ground (arith, h.real, h.not_negative);
}

pub pid_limit-nan : (max : Float) → pid_limit nan max ≡ nan
unfolding pid_limit lt
pid_limit-nan max = ground arith

pub pid_limit-NanOrWithin : (val max : Float) → IsLimit max → NanOrWithin max (pid_limit val max)
pid_limit-NanOrWithin nan max h = inl (pid_limit-nan max)
pid_limit-NanOrWithin (inf s) max h = inr (pid_limit-InRange (inf s) max h (λ e. cc))
pid_limit-NanOrWithin (fin s m) max h = inr (pid_limit-InRange (fin s m) max h (λ e. cc))

-- The three limits of a controller, and its three limited quantities.
pub record HasLimits (pid : PidControl) : Type 0 where
  pub error_limit : IsLimit pid.error_max
  pub error_all_limit : IsLimit pid.error_all_max
  pub output_limit : IsLimit pid.output_max

pub record IsBounded (pid : PidControl) : Type 0 where
  pub limits : HasLimits pid
  pub error_bounded : NanOrWithin pid.error_max pid.error
  pub error_all_bounded : NanOrWithin pid.error_all_max pid.error_all
  pub output_bounded : NanOrWithin pid.output_max pid.output

-- After an update from any state with proper limits, the error, the accumulated error and the output
-- are each a NaN or within its limit.
pub pid_update-IsBounded : (pid : PidControl) → HasLimits pid → IsBounded (pid_update pid)
unfolding pid_update
pid_update-IsBounded pid h = record {
  limits = record {
    error_limit = h.error_limit;
    error_all_limit = h.error_all_limit;
    output_limit = h.output_limit;
  };
  error_bounded = pid_limit-NanOrWithin _ _ h.error_limit;
  error_all_bounded = pid_limit-NanOrWithin _ _ h.error_all_limit;
  output_bounded = pid_limit-NanOrWithin _ _ h.output_limit;
}

-- A run of the control loop: each round brings a desired and a measured value, then updates.
unfoldable pub run : PidControl → List (Float × Float) → PidControl
run pid [] = pid
run pid ((des, input) ∷ rounds) = run (pid_update (record pid { des = des; input = input })) rounds
