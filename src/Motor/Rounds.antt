-- ===== src/Motor/Rounds.antt =====
-- The rounds of the communication thread over sound motors.
use motor_test.Motor.Sound.{IsSound, AreSound, AreSound-at, put-AreSound, put_payload-IsSound}
use motor_test.Motor.Sound.{IsSound-same, IsMotorFrame}
use motor_test.Base.{ℕ, zero, suc, ◌≡◌, refl, List, length, some, Bool-cases, inl, inr}
use motor_test.Base.{Option-cases, [], All, All-snoc}
use motor_test.Float.{Float, neg}
use motor_test.Protocol.{◌>>=◌, pack_cmd_vel, enter_motor_mode, exit_motor_mode}
use motor_test.Protocol.Layout.{Fields, store_eight, read_fields}
use motor_test.Protocol.Command.{pack_cmd_new-total, codes}
use motor_test.Motor.{MotorMit, Motors, MotorIndex, first, second, motor_at, put_motor}
use motor_test.Motor.Cycle.{Round, Last, Kind, enter, exit, command, put_payload, pack_command}
use motor_test.Motor.Cycle.{
  control_speed, command_frame, next_frame, motor_cycle, commu_round, is_set,
}
use motor_test.Pid.{PidControl, pid_update}
use motor_test.Pid.Bounds.{IsBounded, pid_update-IsBounded}
use motor_test.Motor.Unroll.{motor_cycle-none, motor_cycle-some}
use motor_test.Motor.Cycle.{record_sent, kind_of, last_at, protocol_of}

-- The codes of a motor's command, by its own limits.
abbrev pub own_codes : MotorMit → Fields
own_codes m =
    codes m.control m.param.max_pos (neg m.param.max_pos) m.param.max_vel (neg m.param.max_vel)
      m.param.max_torque (neg m.param.max_torque)

-- A sound motor's command is packed, and read by the receiver as the codes by the motor's limits.
pub pack_command-total :
    (i : MotorIndex) (m : MotorMit)
    → IsSound i m
    → (bytes : List ℕ) × (pack_command m ≡ some (put_payload m bytes))
      × (length bytes ≡ 8)
      × (read_fields bytes ≡ own_codes m)
unfolding pack_command
pack_command-total i m s =
    let packed =
      pack_cmd_new-total m.can_tx.payload m.control m.param.max_pos (neg m.param.max_pos)
        m.param.max_vel (neg m.param.max_vel) m.param.max_torque (neg m.param.max_torque)
        s.positions s.speeds s.torques s.eight in
    (packed.0, rw (packed.1), packed.4, packed.2)

mode_frame-eight :
    (bytes : List ℕ)
    → length bytes ≡ 8
    → (length (enter_motor_mode bytes) ≡ 8) × (length (exit_motor_mode bytes) ≡ 8)
unfolding enter_motor_mode exit_motor_mode
mode_frame-eight bytes e =
    (rw (store_eight bytes _ _ _ _ _ _ _ _ e), rw (store_eight bytes _ _ _ _ _ _ _ _ e))

length-pack_cmd_vel :
    (m : MotorMit)
    → length m.can_tx.payload ≡ 8
    → length (pack_cmd_vel m.can_tx.payload m.control m.param.max_vel (neg m.param.max_vel)) ≡ 8
unfolding pack_cmd_vel
length-pack_cmd_vel m e = rw (store_eight m.can_tx.payload _ _ _ _ _ _ _ _ e)

driven-IsBounded :
    (pid : PidControl) (v : Float)
    → IsBounded pid
    → IsBounded (pid_update (record pid { input = v }))
driven-IsBounded pid v h =
    pid_update-IsBounded (record pid { input = v })
      (record {
        error_limit = h.limits.error_limit;
        error_all_limit = h.limits.error_all_limit;
        output_limit = h.limits.output_limit;
      })

pub control_speed-AreSound :
    (g : Motors) (i : MotorIndex) → AreSound g → AreSound (control_speed g i)
unfolding control_speed
control_speed-AreSound g first s = elim (Bool-cases (is_set g.motor0.motor_enable)) [
  | inl e ↦ rw e (record {
    sound0 = IsSound-same first g.motor0 _ refl refl s.sound0;
    sound1 = IsSound-same second g.motor1 _ refl refl s.sound1;
    bounded = driven-IsBounded g.motor1.pid g.motor0.state.v s.bounded;
  })
  | inr e ↦ rw e (record {
    sound0 = IsSound-same first g.motor0 _ refl refl s.sound0;
    sound1 = s.sound1;
    bounded = s.bounded;
  })
]
control_speed-AreSound g second s = elim (Bool-cases (is_set g.motor1.motor_enable)) [
  | inl e ↦ rw e (record {
    sound0 = s.sound0;
    sound1 = IsSound-same second g.motor1 _ refl refl s.sound1;
    bounded = driven-IsBounded g.motor1.pid g.motor1.state.v s.bounded;
  })
  | inr e ↦ rw e (record {
    sound0 = s.sound0;
    sound1 = IsSound-same second g.motor1 _ refl refl s.sound1;
    bounded = s.bounded;
  })
]

packed-AreSound :
    (g : Motors) (i : MotorIndex)
    → AreSound g
    → (h : Motors) × ((pack_command (motor_at g i) >>= λ m. some (put_motor g i m)) ≡ some h)
      × AreSound h
packed-AreSound g i s =
    let packed = pack_command-total i (motor_at g i) (AreSound-at g i s) in
    let m = put_payload (motor_at g i) packed.0 in
    let sound = put_payload-IsSound i (motor_at g i) packed.0 (AreSound-at g i s) packed.2 in
    (put_motor g i m, rw (packed.1), put-AreSound g i m s sound refl)

pub sent-IsMotorFrame :
    (i : MotorIndex) (m : MotorMit)
    → IsSound i m
    → IsMotorFrame (record { handle = m.can; frame = m.can_tx })
sent-IsMotorFrame first m s = record {
  to_motor = inl s.address;
  eight_long = s.frame_length;
  eight_bytes = s.eight;
}
sent-IsMotorFrame second m s = record {
  to_motor = inr s.address;
  eight_long = s.frame_length;
  eight_bytes = s.eight;
}

pub command_frame-AreSound :
    (p : ℕ) (g : Motors) (i : MotorIndex)
    → AreSound g
    → (h : Motors) × (command_frame p g i ≡ some h) × AreSound h
unfolding command_frame
command_frame-AreSound zero g i s = packed-AreSound g i s
command_frame-AreSound (suc zero) g i s =
    let m = motor_at g i in
    let bytes = pack_cmd_vel m.can_tx.payload m.control m.param.max_vel (neg m.param.max_vel) in
    let sound =
      put_payload-IsSound i m bytes (AreSound-at g i s)
        (length-pack_cmd_vel m (AreSound-at g i s).eight) in
    (put_motor g i (put_payload m bytes), refl, put-AreSound g i (put_payload m bytes) s sound refl)
command_frame-AreSound (suc (suc p)) g i s =
    packed-AreSound (control_speed g i) i (control_speed-AreSound g i s)

pub next_frame-AreSound :
    (k : Kind) (p : ℕ) (g : Motors) (i : MotorIndex)
    → AreSound g
    → (h : Motors) × (next_frame k p g i ≡ some h) × AreSound h
unfolding next_frame
next_frame-AreSound enter p g i s =
    let m = motor_at g i in
    let sound = AreSound-at g i s in
    let bytes = enter_motor_mode m.can_tx.payload in
    let kept =
      put_payload-IsSound i m bytes sound (mode_frame-eight m.can_tx.payload sound.eight).0 in
    (put_motor g i (put_payload m bytes), refl, put-AreSound g i (put_payload m bytes) s kept refl)
next_frame-AreSound exit p g i s =
    let m = motor_at g i in
    let sound = AreSound-at g i s in
    let bytes = exit_motor_mode m.can_tx.payload in
    let kept =
      put_payload-IsSound i m bytes sound (mode_frame-eight m.can_tx.payload sound.eight).1 in
    (put_motor g i (put_payload m bytes), refl, put-AreSound g i (put_payload m bytes) s kept refl)
next_frame-AreSound command p g i s = command_frame-AreSound p g i s

pub motor_cycle-AreSound :
    (r : Round) (i : MotorIndex)
    → AreSound r.motors
    → All IsMotorFrame r.sent
    → (t : Round) × (motor_cycle r i ≡ some t) × AreSound t.motors × All IsMotorFrame t.sent
motor_cycle-AreSound r i s frames =
    elim (Option-cases (protocol_of (motor_at r.motors i).protocol)) [
      | inl e ↦ (r, motor_cycle-none r i e, s, frames)
      | inr (p, e) ↦
          let kind = kind_of (last_at r.last i) (motor_at r.motors i).motor_enable in
          let next = next_frame-AreSound kind p r.motors i s in
          let fits = sent-IsMotorFrame i (motor_at next.0 i) (AreSound-at next.0 i next.2) in
          (
            record_sent r i next.0,
            rw (motor_cycle-some r i p e, next.1),
            next.2,
            All-snoc IsMotorFrame r.sent _ frames fits,
          )
    ]

-- A round over sound motors, whatever their protocols, enable flags, commands and states, meets no
-- undefined conversion, leaves them sound, and sends nothing but frames of eight bytes to the motors.
pub commu_round-total :
    (g : Motors) (last : Last)
    → AreSound g
    → (r : Round) × (commu_round g last ≡ some r) × AreSound r.motors × All IsMotorFrame r.sent
unfolding commu_round
commu_round-total g last s =
    let start : Round = record { motors = g; last = last; sent = [] } in
    let one = motor_cycle-AreSound start first s tt in
    let two = motor_cycle-AreSound one.0 second one.2 one.3 in
    (two.0, rw (one.1, two.1), two.2, two.3)
