-- ===== src/Motor.antt =====
-- src/test.c: the two motors on the bench, their state and the operations on it. The shell commands,
-- the receiving callback and the communication thread share the array `g_motor`.
pub mod Receive
pub mod Cycle
pub mod Unroll
pub mod Sound
pub mod Rounds
pub mod Init
pub mod Start
pub mod Replies
pub mod Modes
use motor_test.Base.{ℕ, zero, suc, ◌*◌, ◌/◌, ◌%◌, ◌^◌, Bool, true, false, if◌then◌else◌, ◌&&◌, not}
use motor_test.Base.{List, [], ◌∷◌, Option, some, none}
use motor_test.Base.Int.{ℤ, pos, negsuc, wrap}
use motor_test.Float.{Float, nan, float32, float64, lit, lt, mul, abs}
use motor_test.Float.Convert.{widen, to_int}
use motor_test.Protocol.{JointControl, JointState, store}
use motor_test.Pid.{PidControl}

-- The frame that the program sends and receives; the padding bytes carry nothing.
pub record CanFrame : Type 0 where
  pub can_id : ℕ
  pub can_dlc : ℕ
  pub payload : List ℕ

pub record MitParam : Type 0 where
  pub max_vel : Float
  pub max_pos : Float
  pub max_torque : Float

-- `can` is the bus handle, `none` the null pointer. The spin lock is left out: every use of it but
-- its initialisation is commented out.
pub record MotorMit : Type 0 where
  pub control : JointControl
  pub state : JointState
  pub pid : PidControl
  pub can : Option ℕ
  pub param : MitParam
  pub can_tx : CanFrame
  pub motor_enable : ℤ
  pub protocol : ℤ

-- `g_motor`, an array of two.
pub record Motors : Type 0 where
  pub motor0 : MotorMit
  pub motor1 : MotorMit

pub data MotorIndex : Type 0 where
  first second : MotorIndex

abbrev pub motor_at : Motors → MotorIndex → MotorMit
motor_at g first = g.motor0
motor_at g second = g.motor1

abbrev pub put_motor : Motors → MotorIndex → MotorMit → Motors
put_motor g first m = record g { motor0 = m }
put_motor g second m = record g { motor1 = m }

abbrev pub motor_1_id : ℕ
motor_1_id = 2

abbrev pub motor_2_id : ℕ
motor_2_id = 1

-- `a >= b`; false where either is a NaN.
unfoldable pub ge : Float → Float → Bool
ge a nan = false
ge nan b = false
ge a b = not (lt a b)

-- Below 420 the current goes out in thousandths, most significant byte first. `none` is the undefined
-- conversion of a NaN.
unfoldable pub vsec_pack_current : List ℕ → Float → Option (List ℕ × ℤ)
unfolding store
vsec_pack_current buf current =
    if ge (abs (widen current)) (lit float64 false 420 1)
    then some (buf, negsuc 0)
    else elim (to_int float32 (mul float32 current (lit float32 false 1000 1))) [
      | none ↦ none
      | some temp ↦
          let w = wrap (2 ^ 32) temp in
          some (store buf 0 (w / 2 ^ 24 ∷ w / 2 ^ 16 ∷ w / 2 ^ 8 ∷ w ∷ []), pos 0)
    ]

unfoldable pub motor_enable : MotorMit → ℤ → MotorMit
motor_enable motor enable = record motor { motor_enable = enable }

unfoldable pub set_motor_tor : MotorMit → Float → MotorMit
set_motor_tor motor tor = record motor { control = record (motor.control) { t_ff = tor } }

unfoldable pub set_vesc_tor : MotorMit → Float → MotorMit
set_vesc_tor motor tor = record motor { control = record (motor.control) { t_ff = tor } }

unfoldable pub set_motor_vel : MotorMit → Float → MotorMit
set_motor_vel motor vel = record motor { control = record (motor.control) { v_des = vel } }
