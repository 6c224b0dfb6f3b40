-- ===== src/Motor/Cycle.antt =====
-- The body of `commu_thread` of src/test.c: one round over the two motors sends each its next frame.
use motor_test.Base.{ℕ, zero, suc, Bool, if◌then◌else◌, ◌&&◌, not}
use motor_test.Base.{List, [], ◌∷◌, ◌++◌, Option, some, none}
use motor_test.Base.Int.{ℤ, pos, negsuc, is_zero}
use motor_test.Float.{neg, zero_float}
use motor_test.Protocol.{enter_motor_mode, exit_motor_mode, pack_cmd_new, pack_cmd_vel, ◌>>=◌}
use motor_test.Pid.{pid_update}
use motor_test.Motor.{CanFrame, MotorMit, Motors, MotorIndex, first, second, motor_at, put_motor}

-- What the thread keeps beside the motors, `enable_last`.
pub record Last : Type 0 where
  pub last0 : ℤ
  pub last1 : ℤ

abbrev pub last_at : Last → MotorIndex → ℤ
last_at l first = l.last0
last_at l second = l.last1

abbrev pub put_last : Last → MotorIndex → ℤ → Last
put_last l first e = record l { last0 = e }
put_last l second e = record l { last1 = e }

-- `can_commu_send` of the motor's frame on the motor's bus handle.
pub record Sent : Type 0 where
  pub handle : Option ℕ
  pub frame : CanFrame

pub record Round : Type 0 where
  pub motors : Motors
  pub last : Last
  pub sent : List Sent

abbrev pub is_set : ℤ → Bool
is_set e = not (is_zero e)

abbrev pub put_payload : MotorMit → List ℕ → MotorMit
put_payload motor bytes = record motor { can_tx = record (motor.can_tx) { payload = bytes } }

-- The three kinds of frame: the mode that is entered or left when the enable flag has changed, and
-- else the command of the protocol.
pub data Kind : Type 0 where
  enter exit command : Kind

unfoldable pub kind_of : ℤ → ℤ → Kind
kind_of enable_last motor_enable =
    if not (is_set enable_last) && is_set motor_enable
    then enter
    else if is_set enable_last && not (is_set motor_enable)
    then exit
    else command

unfoldable pub pack_command : MotorMit → Option MotorMit
pack_command motor =
    pack_cmd_new motor.can_tx.payload motor.control motor.param.max_pos (neg motor.param.max_pos)
      motor.param.max_vel (neg motor.param.max_vel) motor.param.max_torque
      (neg motor.param.max_torque)
    >>= λ bytes. some (put_payload motor bytes)

-- The torque of protocol 2: from the controller of the second motor, fed with this motor's speed,
-- or zero where the motor is not enabled.
unfoldable pub control_speed : Motors → MotorIndex → Motors
control_speed g i =
    let v = (motor_at g i).state.v in
    if is_set (motor_at g i).motor_enable
    then (let pid = pid_update (record (g.motor1.pid) { input = v }) in
        let updated = record g { motor1 = record (g.motor1) { pid = pid } } in
        let motor = motor_at updated i in
        put_motor updated i
          (record motor { control = record (motor.control) { t_ff = pid.output } }))
    else (let motor = motor_at g i in
        put_motor g i (record motor { control = record (motor.control) { t_ff = zero_float } }))

-- The command branch of each protocol, on the whole array.
unfoldable pub command_frame : ℕ → Motors → MotorIndex → Option Motors
command_frame zero g i = pack_command (motor_at g i) >>= λ motor. some (put_motor g i motor)
command_frame (suc zero) g i =
    let motor = motor_at g i in
    some (
      put_motor g i (
        put_payload motor (
          pack_cmd_vel motor.can_tx.payload motor.control motor.param.max_vel
            (neg motor.param.max_vel))))
command_frame (suc (suc p)) g i =
    let driven = control_speed g i in
    pack_command (motor_at driven i) >>= λ motor. some (put_motor driven i motor)

-- The frame that this round sends, in the array, for a protocol that the thread knows.
unfoldable pub next_frame : Kind → ℕ → Motors → MotorIndex → Option Motors
next_frame enter p g i =
    let motor = motor_at g i in
    some (put_motor g i (put_payload motor (enter_motor_mode motor.can_tx.payload)))
next_frame exit p g i =
    let motor = motor_at g i in
    some (put_motor g i (put_payload motor (exit_motor_mode motor.can_tx.payload)))
next_frame command p g i = command_frame p g i

-- A protocol of the thread's; any other number sends nothing and leaves `enable_last` as it is.
unfoldable pub protocol_of : ℤ → Option ℕ
protocol_of (pos zero) = some 0
protocol_of (pos (suc zero)) = some 1
protocol_of (pos (suc (suc zero))) = some 2
protocol_of (pos (suc (suc (suc n)))) = none
protocol_of (negsuc n) = none

-- The round after motor `i`'s frame stands in the array: it is sent, and `enable_last` follows.
abbrev pub record_sent : Round → MotorIndex → Motors → Round
record_sent r i g =
    let motor = motor_at g i in
    record {
      motors = g;
      last = put_last r.last i motor.motor_enable;
      sent = r.sent ++ (record { handle = motor.can; frame = motor.can_tx }) ∷ [];
    }

-- One pass of the inner loop. `none` is an undefined conversion in the packing.
unfoldable pub motor_cycle : Round → MotorIndex → Option Round
motor_cycle r i =
    let motor = motor_at r.motors i in
    elim (protocol_of motor.protocol) [
      | none ↦ some r
      | some p ↦ next_frame (kind_of (last_at r.last i) motor.motor_enable) p r.motors i >>= λ g.
          some (record_sent r i g)
    ]

-- One pass of the outer loop: both motors in turn.
unfoldable pub commu_round : Motors → Last → Option Round
commu_round g last =
    motor_cycle (record { motors = g; last = last; sent = [] }) first >>= λ r. motor_cycle r second
