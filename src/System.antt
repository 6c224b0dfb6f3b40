-- ===== src/System.antt =====
-- The running program: the shell thread, the receiving thread and the communication thread work on
-- the same motors, with no lock, in any order. A step is one action of a shell command, one received
-- frame, or one of the two halves of `commu_thread`'s loop body: choosing and packing a motor's frame,
-- and sending it and noting the enable flag.
pub mod Safety
pub mod Races
use motor_test.Base.{ℕ, ◌≡◌, List, [], ◌∷◌, ◌++◌, some, none}
use motor_test.Base.Int.{pos}
use motor_test.Motor.{Motors, MotorIndex, first, second, motor_at}
use motor_test.Motor.Receive.{motor_test_can_call}
use motor_test.Motor.Cycle.{
  Last, Sent, Round, next_frame, kind_of, last_at, protocol_of, record_sent,
}
use motor_test.Bench.{Action, perform}

-- Where the communication thread is: before a motor's turn, or with its frame packed.
pub data Phase : Type 0 where
  before : MotorIndex → Phase
  packed : MotorIndex → Phase

abbrev pub following : MotorIndex → MotorIndex
following first = second
following second = first

pub record System : Type 0 where
  pub round : Round
  pub phase : Phase

-- The communication thread with the motors as they stand.
abbrev pub with_motors : System → Motors → System
with_motors s g = record s { round = record (s.round) { motors = g } }

pub data Step : System → System → Type 0 where
  shell :
      (s : System) (a : Action) (g : Motors)
      → perform a s.round.motors ≡ some g
      → Step s (with_motors s g)
  receive :
      (s : System) (buf : List ℕ) (g : Motors) (printed : List ℕ)
      → motor_test_can_call s.round.motors buf ≡ some (g, printed)
      → Step s (with_motors s g)
  skip :
      (s : System) (i : MotorIndex)
      → s.phase ≡ before i
      → protocol_of (motor_at s.round.motors i).protocol ≡ none
      → Step s (record s { phase = before (following i) })
  pack :
      (s : System) (i : MotorIndex) (p : ℕ) (g : Motors)
      → s.phase ≡ before i
      → protocol_of (motor_at s.round.motors i).protocol ≡ some p
      → next_frame
          (kind_of (last_at s.round.last i) (motor_at s.round.motors i).motor_enable)
          p
          s.round.motors
          i
        ≡ some g
      → Step s (record { round = record (s.round) { motors = g }; phase = packed i })
  send :
      (s : System) (i : MotorIndex)
      → s.phase ≡ packed i
      → Step s
          (record { round = record_sent s.round i s.round.motors; phase = before (following i) })

pub data Reach (s : System) : System → Type 0 where
  here : Reach s s
  next : {t u : System} → Reach s t → Step t u → Reach s u

-- The threads have just been started over these motors.
abbrev pub started : Motors → System
started g = record {
  round = record { motors = g; last = record { last0 = pos 0; last1 = pos 0 }; sent = [] };
  phase = before first;
}
