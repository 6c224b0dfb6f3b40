-- ===== src/Bench.antt =====
-- The shell commands of src/test.c: each is a sequence of actions on the motors, which the other
-- threads run between.
pub mod Commands
pub mod Ramps
pub mod Programs
pub mod Endings
pub mod Extreme
pub mod Limits
pub mod Laws
use motor_test.Base.{ℕ, List, [], ◌∷◌, Option, some, none}
use motor_test.Base.Int.{ℤ}
use motor_test.Float.{Float}
use motor_test.Pid.{PidControl}
use motor_test.Motor.{MotorMit, Motors, MotorIndex, first, second, motor_at, put_motor}
use motor_test.Motor.{motor_enable, set_motor_tor, set_motor_vel}

-- One write to the motors, a sleep in microseconds, or a fault: a null pointer is used.
pub data Action : Type 0 where
  set_tor : MotorIndex → Float → Action
  set_vel : MotorIndex → Float → Action
  set_enable : MotorIndex → ℤ → Action
  set_protocol : MotorIndex → ℤ → Action
  set_des : Float → Action
  set_kp : Float → Action
  set_ki : Float → Action
  sleep : ℕ → Action
  fault : Action

abbrev change_motor : Motors → MotorIndex → (MotorMit → MotorMit) → Option Motors
change_motor g i f = some (put_motor g i (f (motor_at g i)))

-- The write that an action makes; the desired speed and the gains are those of `g_motor[1].pid`.
unfoldable pub perform : Action → Motors → Option Motors
unfolding motor_enable set_motor_tor set_motor_vel
perform (set_tor i tor) g = change_motor g i (λ m. set_motor_tor m tor)
perform (set_vel i vel) g = change_motor g i (λ m. set_motor_vel m vel)
perform (set_enable i e) g = change_motor g i (λ m. motor_enable m e)
perform (set_protocol i p) g = change_motor g i (λ m. record m { protocol = p })
perform (set_des des) g =
    change_motor g second (λ m. record m { pid = record (m.pid) { des = des } })
perform (set_kp kp) g = change_motor g second (λ m. record m { pid = record (m.pid) { kp = kp } })
perform (set_ki ki) g = change_motor g second (λ m. record m { pid = record (m.pid) { ki = ki } })
perform (sleep us) g = some g
perform fault g = none

-- A command with nothing between its actions.
unfoldable pub perform_all : List Action → Motors → Option Motors
perform_all [] g = some g
perform_all (a ∷ rest) g = elim (perform a g) [ none ↦ none | some h ↦ perform_all rest h ]
