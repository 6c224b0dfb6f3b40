-- ===== src/Motor/Modes.antt =====
-- Which frame a motor is sent: the mode frames at a change of the enable flag, and its command.
use mathlib.Core.Path.{subst}
use mathlib.Core.Option.{some-injective}
use motor_test.Base.{ℕ, zero, suc, ◌≡◌, refl, arith, List, [], ◌∷◌, ◌++◌, length, some}
use motor_test.Base.Int.{ℤ}
use motor_test.Float.{neg}
use motor_test.Protocol.{enter_motor_mode, exit_motor_mode, pack_cmd_vel, ◌>>=◌}
use motor_test.Protocol.Layout.{store_eight, read_fields}
use motor_test.Motor.{MotorMit, Motors, MotorIndex, first, second, motor_at, put_motor}
use motor_test.Motor.Cycle.{Round, Sent, Kind, enter, exit, command, kind_of, next_frame}
use motor_test.Motor.Cycle.{command_frame, motor_cycle, record_sent, last_at, put_last, protocol_of}
use motor_test.Motor.Cycle.{put_payload, pack_command, control_speed}
use motor_test.Motor.Sound.{AreSound, AreSound-at}
use motor_test.Motor.Rounds.{
  next_frame-AreSound, control_speed-AreSound, own_codes, pack_command-total,
}
use motor_test.Motor.Unroll.{motor_cycle-some}

pub motor_at-put : (g : Motors) (i : MotorIndex) (m : MotorMit) → motor_at (put_motor g i m) i ≡ m
motor_at-put g first m = refl
motor_at-put g second m = refl

pub last_at-put : (r : Round) (i : MotorIndex) (e : ℤ) → last_at (put_last r.last i e) i ≡ e
last_at-put r first e = refl
last_at-put r second e = refl

-- With the flag as it was last time, the frame is a command.
pub kind_of_self : (e : ℤ) → kind_of e e ≡ command
unfolding kind_of
kind_of_self e = ground arith

-- A round that notes the flag: the next frame is a command unless the flag changes.
pub record_sent-command :
    (r : Round) (i : MotorIndex) (g : Motors)
    → kind_of (last_at (record_sent r i g).last i) (motor_at g i).motor_enable ≡ command
record_sent-command r i g = rw (last_at-put r i) (kind_of_self (motor_at g i).motor_enable)

-- The eight bytes of a mode frame, by their last.
abbrev pub mode_bytes : ℕ → List ℕ
mode_bytes b = 0xFF ∷ 0xFF ∷ 0xFF ∷ 0xFF ∷ 0xFF ∷ 0xFF ∷ 0xFF ∷ b ∷ []

-- What the frame of each kind holds: the mode's bytes, or the command of the protocol. In protocol 2
-- the torque is the controller's.
abbrev pub Holds : Kind → ℕ → Motors → MotorIndex → List ℕ → Type 0
Holds enter p g i bytes = bytes ≡ mode_bytes 0xFC
Holds exit p g i bytes = bytes ≡ mode_bytes 0xFD
Holds command zero g i bytes = read_fields bytes ≡ own_codes (motor_at g i)
Holds command (suc zero) g i bytes =
    bytes
    ≡ pack_cmd_vel (motor_at g i).can_tx.payload (motor_at g i).control (motor_at g i).param.max_vel
        (neg (motor_at g i).param.max_vel)
Holds command (suc (suc p)) g i bytes =
    read_fields bytes ≡ own_codes (motor_at (control_speed g i) i)

enter_bytes : (buf : List ℕ) → length buf ≡ 8 → enter_motor_mode buf ≡ mode_bytes 0xFC
unfolding enter_motor_mode
enter_bytes buf e = rw (store_eight buf 255 255 255 255 255 255 255 252 e)

exit_bytes : (buf : List ℕ) → length buf ≡ 8 → exit_motor_mode buf ≡ mode_bytes 0xFD
unfolding exit_motor_mode
exit_bytes buf e = rw (store_eight buf 255 255 255 255 255 255 255 253 e)

-- A statement of the motor that was put into the array.
after_put :
    (P : List ℕ → Type 0) (g h : Motors) (i : MotorIndex) (m : MotorMit)
    → put_motor g i m ≡ h
    → P m.can_tx.payload
    → P (motor_at h i).can_tx.payload
after_put P g h first m e held = subst (λ (t : Motors). P t.motor0.can_tx.payload) e held
after_put P g h second m e held = subst (λ (t : Motors). P t.motor1.can_tx.payload) e held

-- A command packed by the motor's limits, after what `g` stands for has been done to the array.
packed-Holds :
    (g h : Motors) (i : MotorIndex)
    → AreSound g
    → (pack_command (motor_at g i) >>= λ m. some (put_motor g i m)) ≡ some h
    → read_fields (motor_at h i).can_tx.payload ≡ own_codes (motor_at g i)
packed-Holds g h i s e =
    let total = pack_command-total i (motor_at g i) (AreSound-at g i s) in
    after_put (λ bytes. read_fields bytes ≡ own_codes (motor_at g i)) g h i
      (put_payload (motor_at g i) total.0) (some-injective _ _ (rw (total.1) at e)) total.3

next_frame-Holds :
    (k : Kind) (p : ℕ) (g h : Motors) (i : MotorIndex)
    → AreSound g
    → next_frame k p g i ≡ some h
    → Holds k p g i (motor_at h i).can_tx.payload
unfolding next_frame command_frame
next_frame-Holds enter p g h i s e =
    after_put (λ bytes. bytes ≡ mode_bytes 0xFC) g h i _ (some-injective _ _ e)
      (enter_bytes (motor_at g i).can_tx.payload (AreSound-at g i s).eight)
next_frame-Holds exit p g h i s e =
    after_put (λ bytes. bytes ≡ mode_bytes 0xFD) g h i _ (some-injective _ _ e)
      (exit_bytes (motor_at g i).can_tx.payload (AreSound-at g i s).eight)
next_frame-Holds command zero g h i s e = packed-Holds g h i s e
next_frame-Holds command (suc zero) g h i s e =
    after_put (λ bytes. Holds command 1 g i bytes) g h i _ (some-injective _ _ e) refl
next_frame-Holds command (suc (suc p)) g h i s e =
    packed-Holds (control_speed g i) h i (control_speed-AreSound g i s) e

-- A turn of the communication thread for a sound motor of a known protocol sends exactly one frame:
-- FF..FF FC when the flag has come on since the last turn, FF..FF FD when it has gone off, and a
-- command otherwise. The receiver reads the command of protocol 0 as the codes of the motor's control,
-- and that of protocol 2 as those of the control with the torque of the speed controller; the command
-- of protocol 1 is the packed speed. After the turn, the next frame is a command unless the flag
-- changes again.
pub motor_cycle-Holds :
    (r : Round) (i : MotorIndex) (p : ℕ)
    → AreSound r.motors
    → protocol_of (motor_at r.motors i).protocol ≡ some p
    → let kind = kind_of (last_at r.last i) (motor_at r.motors i).motor_enable in
      (t : Round) × (x : Sent) × (motor_cycle r i ≡ some t)
      × (t.sent ≡ r.sent ++ x ∷ [])
      × Holds kind p r.motors i x.frame.payload
      × (kind_of (last_at t.last i) (motor_at t.motors i).motor_enable ≡ command)
motor_cycle-Holds r i p s e =
    let kind = kind_of (last_at r.last i) (motor_at r.motors i).motor_enable in
    let done = next_frame-AreSound kind p r.motors i s in
    let motor = motor_at done.0 i in
    (
      record_sent r i done.0,
      record { handle = motor.can; frame = motor.can_tx },
      rw (motor_cycle-some r i p e, done.1),
      refl,
      next_frame-Holds kind p r.motors done.0 i s done.1,
      record_sent-command r i done.0,
    )
