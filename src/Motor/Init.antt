-- ===== src/Motor/Init.antt =====
-- `motor_test_init` of src/test.c.
use motor_test.Base.{ℕ, zero, Bool, false, if◌then◌else◌, not, Option, some, none, List, [], ◌∷◌}
use motor_test.Base.Int.{ℤ, pos, negsuc, is_zero}
use motor_test.Float.{Float, float32, float64, zero_float, lit, div}
use motor_test.Float.Convert.{narrow}
use motor_test.Pid.{PidControl, pid_cleared}
use motor_test.Motor.{MitParam, MotorMit, Motors, motor_1_id, motor_2_id}

-- What the calls of `dy200_init`, `can_commu_init` and `pthread_create` return.
pub record Setup : Type 0 where
  pub sensor_result : ℤ
  pub can_handle : Option ℕ
  pub thread_result : ℤ

abbrev pub zero_bytes : List ℕ
zero_bytes = 0 ∷ 0 ∷ 0 ∷ 0 ∷ 0 ∷ 0 ∷ 0 ∷ 0 ∷ []

-- A motor as `memset` leaves it.
abbrev pub motor_cleared : MotorMit
motor_cleared = record {
  control = record {
    p_des = zero_float;
    v_des = zero_float;
    kp = zero_float;
    kd = zero_float;
    t_ff = zero_float;
  };
  state = record { p = zero_float; v = zero_float; t = zero_float };
  pid = pid_cleared;
  can = none;
  param = record { max_vel = zero_float; max_pos = zero_float; max_torque = zero_float };
  can_tx = record { can_id = 0; can_dlc = 0; payload = zero_bytes };
  motor_enable = pos 0;
  protocol = pos 0;
}

abbrev pub motors_cleared : Motors
motors_cleared = record { motor0 = motor_cleared; motor1 = motor_cleared }

-- A `double` literal stored in a `float`.
unfoldable pub stored : Bool → ℕ → ℕ → Float
unfolding lit narrow
stored s n d = narrow (lit float64 s n d)

unfoldable pub bench_param : MitParam
bench_param = record {
  max_vel = stored false 45 1;
  max_pos = stored false 25 2;
  max_torque = stored false 40 1;
}

-- The limits and the protocol, set before the bus is opened.
unfoldable pub with_params : Motors → Motors
with_params g = record {
  motor0 = record (g.motor0) { param = bench_param; protocol = pos 0 };
  motor1 = record (g.motor1) { param = bench_param; protocol = pos 0 };
}

-- The controller of the second motor: `pid_zero`, then its gains and limits.
unfoldable pub bench_pid : PidControl
bench_pid =
    let output_max = stored false 40 1 in
    let ki = stored false 1 10 in
    record pid_cleared {
      kp = stored false 1 2;
      ki = ki;
      output_max = output_max;
      error_all_max = div float32 output_max ki;
      error_max = stored false 4 1;
    }

-- The rest, once the bus is open.
unfoldable pub with_bus : ℕ → Motors → Motors
unfolding bench_pid
with_bus handle g = record {
  motor0 = record (g.motor0) {
    can = some handle;
    can_tx = record (g.motor0.can_tx) { can_id = motor_1_id; can_dlc = 8 };
  };
  motor1 = record (g.motor1) {
    can = some handle;
    control = record (g.motor1.control) { kp = stored false 0 1; kd = stored false 0 1 };
    pid = bench_pid;
    can_tx = record (g.motor1.can_tx) { can_id = motor_2_id; can_dlc = 8 };
  };
}

-- The thread counts as not started only where `pthread_create` returns -1.
unfoldable pub thread_code : ℤ → ℤ
thread_code (negsuc zero) = negsuc 0
thread_code other = pos 0

-- From `can_commu_init` on.
unfoldable pub open_bus : Option ℕ → ℤ → ℤ × Motors
unfolding thread_code
open_bus none thread_result = (negsuc 0, with_params motors_cleared)
open_bus (some handle) thread_result =
    (thread_code thread_result, with_bus handle (with_params motors_cleared))

-- The result and the motors.
unfoldable pub motor_test_init : Setup → ℤ × Motors
unfolding open_bus
motor_test_init env =
    if not (is_zero env.sensor_result)
    then (negsuc 0, motors_cleared)
    else open_bus env.can_handle env.thread_result
