-- ===== src/System/Races.antt =====
-- What the shell thread can do between the two halves of the communication thread's turn.
use motor_test.Base.{◌≡◌, refl, [], ◌∷◌, ◌++◌}
use motor_test.Base.Int.{ℤ}
use motor_test.Motor.{Motors, MotorIndex, first, second, motor_at, put_motor, motor_enable}
use motor_test.Motor.Cycle.{command, kind_of, last_at}
use motor_test.Motor.Modes.{kind_of_self}
use motor_test.Bench.{set_enable, perform}
use motor_test.System.{
  System, packed, before, following, with_motors, shell, send, Reach, here, next,
}

-- While a motor's frame is packed, the shell can set its enable flag to any value. The frame that was
-- packed is sent, and the flag is noted: the next frame is a command, so neither frame tells the
-- motor of the change.
pub enable_lost :
    (s : System) (i : MotorIndex) (e : ℤ)
    → s.phase ≡ packed i
    → (t : System) × Reach s t
      × ((motor_at t.round.motors i).motor_enable ≡ e)
      × (t.phase ≡ before (following i))
      × (t.round.sent
          ≡ s.round.sent
            ++ (record {
              handle = (motor_at s.round.motors i).can;
              frame = (motor_at s.round.motors i).can_tx;
            })
              ∷ [])
      × (kind_of (last_at t.round.last i) (motor_at t.round.motors i).motor_enable ≡ command)
unfolding perform
enable_lost s first e at =
    let g : Motors = put_motor s.round.motors first (motor_enable s.round.motors.motor0 e) in
    (
      _,
      next (next here (shell s (set_enable first e) g refl)) (send (with_motors s g) first at),
      refl,
      refl,
      refl,
      kind_of_self e,
    )
enable_lost s second e at =
    let g : Motors = put_motor s.round.motors second (motor_enable s.round.motors.motor1 e) in
    (
      _,
      next (next here (shell s (set_enable second e) g refl)) (send (with_motors s g) second at),
      refl,
      refl,
      refl,
      kind_of_self e,
    )
