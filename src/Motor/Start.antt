-- ===== src/Motor/Start.antt =====
-- What `motor_test_init` establishes.
use motor_test.Base.{ℕ, ◌≡◌, refl, arith, some, none, Option, Bool-cases, inl, inr}
use motor_test.Base.{not}
use motor_test.Base.Int.{ℤ, pos, negsuc, is_zero}
use motor_test.Float.{lit, neg, lt, div, magnitude}
use motor_test.Float.Convert.{narrow}
use motor_test.Pid.Bounds.{IsBounded}
use motor_test.Motor.{first, second}
use motor_test.Motor.Sound.{IsSound, AreSound}
use motor_test.Motor.Init.{Setup, motor_test_init, open_bus, with_bus, with_params, bench_param}
use motor_test.Motor.Init.{bench_pid, stored, motors_cleared}

bench-sound0 : (handle : ℕ) → IsSound first (with_bus handle (with_params motors_cleared)).motor0
unfolding with_bus with_params bench_param stored lit narrow magnitude neg
bench-sound0 handle = record {
  address = refl;
  frame_length = refl;
  eight = refl;
  positions = omega arith;
  speeds = omega arith;
  torques = omega arith;
}

bench-sound1 : (handle : ℕ) → IsSound second (with_bus handle (with_params motors_cleared)).motor1
unfolding with_bus with_params bench_param stored lit narrow magnitude neg
bench-sound1 handle = record {
  address = refl;
  frame_length = refl;
  eight = refl;
  positions = omega arith;
  speeds = omega arith;
  torques = omega arith;
}

bench_pid-IsBounded : IsBounded bench_pid
unfolding bench_pid stored lit narrow magnitude div neg lt
bench_pid-IsBounded = record {
  limits = record {
    error_limit = record { real = λ e. cc; not_negative = refl };
    error_all_limit = record { real = λ e. cc; not_negative = refl };
    output_limit = record { real = λ e. cc; not_negative = refl };
  };
  error_bounded = inr (record { real = λ e. cc; from_low = refl; to_high = refl });
  error_all_bounded = inr (record { real = λ e. cc; from_low = refl; to_high = refl });
  output_bounded = inr (record { real = λ e. cc; from_low = refl; to_high = refl });
}

bench-AreSound : (handle : ℕ) → AreSound (with_bus handle (with_params motors_cleared))
unfolding with_bus
bench-AreSound handle = record {
  sound0 = bench-sound0 handle;
  sound1 = bench-sound1 handle;
  bounded = bench_pid-IsBounded;
}

open_bus-AreSound :
    (handle : Option ℕ) (thread : ℤ)
    → (open_bus handle thread).0 ≡ pos 0
    → AreSound (open_bus handle thread).1
unfolding open_bus
open_bus-AreSound none thread h = cc
open_bus-AreSound (some handle) thread h = bench-AreSound handle

-- An initialisation that returns 0 leaves sound motors, each with its own identifier, and a controller
-- whose limits are proper.
pub init-AreSound :
    (env : Setup) → (motor_test_init env).0 ≡ pos 0 → AreSound (motor_test_init env).1
unfolding motor_test_init
init-AreSound env h = elim (Bool-cases (not (is_zero env.sensor_result))) [
  | inl failed ↦ let bad : negsuc 0 ≡ pos 0 = rw failed at h in cc
  | inr fine ↦ rw fine (open_bus-AreSound env.can_handle env.thread_result (rw fine at h))
]
