-- ===== src/Pid.antt =====
-- src/pid_control.c and .h: a PID controller on floats, each of its three quantities limited.
pub mod Bounds
pub mod Range
pub mod Faults
use motor_test.Base.{if◌then◌else◌, Option, some, none}
use motor_test.Base.Int.{ℤ, pos, negsuc}
use motor_test.Float.{Float, float32, zero_float, lt, gt, neg, add, sub, mul}

pub record PidControl : Type 0 where
  pub kp : Float
  pub ki : Float
  pub kd : Float
  pub des : Float
  pub input : Float
  pub output : Float
  pub error : Float
  pub error_last : Float
  pub error_all : Float
  pub output_max : Float
  pub error_max : Float
  pub error_all_max : Float

unfoldable pub pid_limit : Float → Float → Float
pid_limit val max = if gt val max then max else if lt val (neg max) then neg max else val

-- All bits zero, as `memset` leaves the structure.
abbrev pub pid_cleared : PidControl
pid_cleared = record {
  kp = zero_float;
  ki = zero_float;
  kd = zero_float;
  des = zero_float;
  input = zero_float;
  output = zero_float;
  error = zero_float;
  error_last = zero_float;
  error_all = zero_float;
  output_max = zero_float;
  error_max = zero_float;
  error_all_max = zero_float;
}

-- The body of `pid_caculate` for a pointer that is not null, one assignment after another.
unfoldable pub pid_update : PidControl → PidControl
pid_update pid =
    let a = record pid { error_last = pid.error } in
    let b = record a { error = sub float32 a.des a.input } in
    let c = record b { error = pid_limit b.error b.error_max } in
    let d = record c { error_all = add float32 c.error_all c.error } in
    let e = record d { error_all = pid_limit d.error_all d.error_all_max } in
    let f = record e {
      output =
          add float32 (add float32 (mul float32 e.error e.kp) (mul float32 e.error_all e.ki))
            (mul float32 (sub float32 e.error e.error_last) e.kd);
    } in
    record f { output = pid_limit f.output f.output_max }

-- A null pointer is refused with -1.
unfoldable pub pid_zero : Option PidControl → ℤ × Option PidControl
pid_zero none = (negsuc 0, none)
pid_zero (some pid) = (pos 0, some pid_cleared)

unfoldable pub pid_caculate : Option PidControl → ℤ × Option PidControl
unfolding pid_update
pid_caculate none = (negsuc 0, none)
pid_caculate (some pid) = (pos 0, some (pid_update pid))
