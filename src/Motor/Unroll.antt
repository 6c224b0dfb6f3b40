-- ===== src/Motor/Unroll.antt =====
-- One pass of the inner loop of `commu_thread`, by the protocol that the motor has.
use motor_test.Base.{ℕ, ◌≡◌, some, none}
use motor_test.Protocol.{◌>>=◌}
use motor_test.Motor.{MotorIndex, motor_at}
use motor_test.Motor.Cycle.{
  Round, next_frame, motor_cycle, record_sent, kind_of, last_at, protocol_of,
}

module _ (r : Round) (i : MotorIndex) where
  pub motor_cycle-none :
      protocol_of (motor_at r.motors i).protocol ≡ none → motor_cycle r i ≡ some r
  unfolding motor_cycle
  motor_cycle-none e = rw (e, motor_cycle)

  pub motor_cycle-some :
      (p : ℕ)
      → protocol_of (motor_at r.motors i).protocol ≡ some p
      → motor_cycle r i ≡ (
          next_frame (kind_of (last_at r.last i) (motor_at r.motors i).motor_enable) p r.motors i
          >>= λ g. some (record_sent r i g))
  unfolding motor_cycle
  motor_cycle-some p e = rw (e, motor_cycle)
