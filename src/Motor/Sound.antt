-- ===== src/Motor/Sound.antt =====
-- What the communication thread needs of the motors so that each of its rounds is defined.
use motor_test.Base.{ℕ, ◌≡◌, List, length}
use motor_test.Base.{◌⊎◌}
use motor_test.Float.{neg}
use motor_test.MathOps.Quantise.{ProperRange}
use motor_test.Motor.{MotorMit, Motors, MotorIndex, first, second, motor_at, put_motor}
use motor_test.Motor.Cycle.{put_payload}
use motor_test.Pid.Bounds.{IsBounded}
use motor_test.Motor.{motor_1_id, motor_2_id}
use motor_test.Motor.Cycle.{Sent}

-- The identifier of each motor's frames.
abbrev pub id_at : MotorIndex → ℕ
id_at first = motor_1_id
id_at second = motor_2_id

-- The motor's own frame, of eight data bytes, and three ranges that a float can be scaled over.
pub record IsSound (i : MotorIndex) (m : MotorMit) : Type 0 where
  pub address : m.can_tx.can_id ≡ id_at i
  pub frame_length : m.can_tx.can_dlc ≡ 8
  pub eight : length m.can_tx.payload ≡ 8
  pub positions : ProperRange (neg m.param.max_pos) m.param.max_pos
  pub speeds : ProperRange (neg m.param.max_vel) m.param.max_vel
  pub torques : ProperRange (neg m.param.max_torque) m.param.max_torque

-- Both motors, and the controller, which belongs to the second.
pub record AreSound (g : Motors) : Type 0 where
  pub sound0 : IsSound first g.motor0
  pub sound1 : IsSound second g.motor1
  pub bounded : IsBounded g.motor1.pid

-- A frame that a motor listens to.
pub record IsMotorFrame (x : Sent) : Type 0 where
  pub to_motor : (x.frame.can_id ≡ motor_1_id) ⊎ (x.frame.can_id ≡ motor_2_id)
  pub eight_long : x.frame.can_dlc ≡ 8
  pub eight_bytes : length x.frame.payload ≡ 8

pub AreSound-at : (g : Motors) (i : MotorIndex) → AreSound g → IsSound i (motor_at g i)
AreSound-at g first s = s.sound0
AreSound-at g second s = s.sound1

pub put-AreSound :
    (g : Motors) (i : MotorIndex) (m : MotorMit)
    → AreSound g
    → IsSound i m
    → (motor_at g i).pid ≡ m.pid
    → AreSound (put_motor g i m)
put-AreSound g first m s h e = record { sound0 = h; sound1 = s.sound1; bounded = s.bounded }
put-AreSound g second m s h e = record {
  sound0 = s.sound0;
  sound1 = h;
  bounded = rw (← e) s.bounded;
}

pub put_payload-IsSound :
    (i : MotorIndex) (m : MotorMit) (bytes : List ℕ)
    → IsSound i m
    → length bytes ≡ 8
    → IsSound i (put_payload m bytes)
put_payload-IsSound i m bytes s e = record {
  address = s.address;
  frame_length = s.frame_length;
  eight = e;
  positions = s.positions;
  speeds = s.speeds;
  torques = s.torques;
}

-- Soundness is a matter of the frame and the limits alone.
pub IsSound-same :
    (i : MotorIndex) (m n : MotorMit)
    → m.can_tx ≡ n.can_tx
    → m.param ≡ n.param
    → IsSound i m
    → IsSound i n
IsSound-same i m n e f s = record {
  address = rw (← e) s.address;
  frame_length = rw (← e) s.frame_length;
  eight = rw (← e) s.eight;
  positions = rw (← f) s.positions;
  speeds = rw (← f) s.speeds;
  torques = rw (← f) s.torques;
}
