-- ===== src/Tests/Motors.antt =====
-- The theorems on the motors, the running program and the test programs at concrete arguments.
use motor_test.Base.{ℕ, ◌≡◌, refl, some, none, true, false, List, [], ◌∷◌, ◌++◌, All}
use motor_test.Base.Int.{ℤ, pos}
use motor_test.Float.{Float, float64, lit, zero_float}
use motor_test.Motor.{Motors, first, second, motor_at, motor_enable}
use motor_test.Motor.Cycle.{
  Last, Sent, Round, command, kind_of, next_frame, protocol_of, motor_cycle,
}
use motor_test.Motor.Cycle.{commu_round, last_at}
use motor_test.Motor.Receive.{motor_test_can_call}
use motor_test.Motor.Replies.{IsByte, handled, motor_test_can_call-handled}
use motor_test.Pid.Bounds.{IsLimit}
use motor_test.Bench.Limits.{TorqueWithin, HasDouble, extreme_rounds-Within}
use motor_test.Bench.Ramps.{extreme_rounds}
use motor_test.Float.{float32, lt, mul, magnitude}
use motor_test.Float.Finite.{IsFinite}
use motor_test.Base.{arith}
use motor_test.Motor.Sound.{AreSound, IsMotorFrame}
use motor_test.Motor.Rounds.{commu_round-total}
use motor_test.Motor.Init.{Setup, motor_test_init, with_bus, with_params}
use motor_test.Motor.Start.{init-AreSound}
use motor_test.Motor.Modes.{Holds, motor_cycle-Holds}
use motor_test.Bench.{set_enable, perform, perform_all}
use motor_test.Bench.Commands.{Word}
use motor_test.Bench.Ramps.{target_arg, ttor_test_new, extreme_condition_testing}
use motor_test.Bench.Programs.{dir_test}
use motor_test.Bench.Endings.{AreOff, dir_test-AreOff, ttor_test_new-ends}
use motor_test.Bench.Extreme.{torques_on, currents, extreme_condition_testing-torques_on}
use motor_test.System.{System, before, packed, shell, Reach, here, next, started, following}
use motor_test.System.Safety.{IsSafe, reachable-IsSafe}
use motor_test.System.Races.{enable_lost}

abbrev good_setup : Setup
good_setup = record { sensor_result = pos 0; can_handle = some 1; thread_result = pos 0 }

good_setup-starts : (motor_test_init good_setup).0 ≡ pos 0
unfolding motor_test_init
good_setup-starts = refl

abbrev bench : Motors
bench = (motor_test_init good_setup).1

init-AreSound_example : AreSound (motor_test_init good_setup).1
init-AreSound_example = init-AreSound good_setup good_setup-starts

abbrev switched_on : Motors
switched_on = record bench { motor0 = motor_enable bench.motor0 (pos 1) }

abbrev after_enable : System
after_enable = record {
  round = record {
    motors = switched_on;
    last = record { last0 = pos 0; last1 = pos 0 };
    sent = [];
  };
  phase = before first;
}

after_enable-Reach : Reach (started (motor_test_init good_setup).1) after_enable
unfolding perform
after_enable-Reach =
    next here
      (shell (started (motor_test_init good_setup).1) (set_enable first (pos 1)) switched_on refl)

reachable-IsSafe_example :
    IsSafe after_enable
    × ((g : Motors) × (next_frame
            (kind_of (pos 0) (motor_at switched_on first).motor_enable)
            0
            switched_on
            first
          ≡ some g))
reachable-IsSafe_example =
    reachable-IsSafe good_setup after_enable first 0 good_setup-starts after_enable-Reach

abbrev was_on : Last
was_on = record { last0 = pos 1; last1 = pos 0 }

commu_round-total_example :
    (r : Round) × (commu_round bench was_on ≡ some r) × AreSound r.motors × All IsMotorFrame r.sent
commu_round-total_example =
    commu_round-total bench was_on (init-AreSound good_setup good_setup-starts)

abbrev bench_round : Round
bench_round = record { motors = bench; last = was_on; sent = [] }

bench-protocol : protocol_of (motor_at bench first).protocol ≡ some 0
unfolding motor_test_init with_bus with_params protocol_of
bench-protocol = refl

motor_cycle-Holds_example :
    (t : Round) × (x : Sent) × (motor_cycle bench_round first ≡ some t)
    × (t.sent ≡ [] ++ x ∷ [])
    × Holds (kind_of (pos 1) (motor_at bench first).motor_enable) 0 bench first x.frame.payload
    × (kind_of (last_at t.last first) (motor_at t.motors first).motor_enable ≡ command)
motor_cycle-Holds_example =
    motor_cycle-Holds bench_round first 0 (init-AreSound good_setup good_setup-starts)
      bench-protocol

abbrev frame_packed : System
frame_packed = record { round = bench_round; phase = packed first }

enable_lost_example :
    (t : System) × Reach frame_packed t
    × ((motor_at t.round.motors first).motor_enable ≡ pos 1)
    × (t.phase ≡ before (following first))
    × (t.round.sent
        ≡ []
          ++ (record { handle = (motor_at bench first).can; frame = (motor_at bench first).can_tx })
            ∷ [])
    × (kind_of (last_at t.round.last first) (motor_at t.round.motors first).motor_enable ≡ command)
enable_lost_example = enable_lost frame_packed first (pos 1) refl

-- Stand-ins for the C library: every word is read as 5, and every random ratio is 1/2.
abbrev five : Word → Float
five word = lit float64 false 5 1

abbrev five_int : Word → ℤ
five_int word = pos 5

abbrev words : List Word
words = [] ∷ [] ∷ [] ∷ []

dir_test-AreOff_example :
    (h : Motors) × (perform_all (dir_test five five_int words 7) bench ≡ some h) × AreOff h
dir_test-AreOff_example = dir_test-AreOff five five_int words 7 bench

ttor_test_new-ends_example :
    ((h : Motors) × (perform_all (ttor_test_new five words true) bench ≡ some h)
      × AreOff h
      × (h.motor1.protocol ≡ pos 0)
      × (h.motor1.pid.des ≡ zero_float)
      × (h.motor1.control ≡ bench.motor1.control))
    × (perform_all (ttor_test_new five words false) bench ≡ none)
ttor_test_new-ends_example = ttor_test_new-ends five words bench

abbrev half_ratio : ℕ → Float
half_ratio i = lit float64 false 1 2

extreme_condition_testing-torques_on_example :
    let actions = extreme_condition_testing five words half_ratio in
    (torques_on first actions
      ≡ currents (target_arg five (lit float32 false 20 1) words) half_ratio 14400 0)
    × (torques_on second actions ≡ [])
    × (h : Motors) × (perform_all actions bench ≡ some h)
    × AreOff h
    × (h.motor1 ≡ record (bench.motor1) { motor_enable = pos 0 })
extreme_condition_testing-torques_on_example =
    extreme_condition_testing-torques_on five words half_ratio bench

-- A reply of the first motor, identifier 0x12.
abbrev reply_bytes : List ℕ
reply_bytes = 2 ∷ 128 ∷ 0 ∷ 127 ∷ 240 ∷ 0 ∷ 0 ∷ 0 ∷ []

reply-IsByte : All IsByte reply_bytes
reply-IsByte = (
  omega arith,
  (
    omega arith,
    (omega arith, (omega arith, (omega arith, (omega arith, (omega arith, (omega arith, tt)))))),
  ),
)

motor_test_can_call-handled_example :
    motor_test_can_call bench (18 ∷ 0 ∷ 0 ∷ 0 ∷ 8 ∷ 0 ∷ 0 ∷ 0 ∷ reply_bytes)
    ≡ some (handled bench 18 8 reply_bytes)
motor_test_can_call-handled_example =
    motor_test_can_call-handled bench 18 0 0 0 8 0 0 0 2 128 0 127 240 0 0 0 (omega arith)
      reply-IsByte

ten-HasDouble : HasDouble (lit float32 false 10 1)
unfolding lit magnitude mul
ten-HasDouble = tt

half-IsFinite : (k : ℕ) → IsFinite (half_ratio k)
unfolding lit magnitude
half-IsFinite k = tt

ten-IsLimit : IsLimit (lit float32 false 10 1)
unfolding lit magnitude lt
ten-IsLimit = record { real = λ e. cc; not_negative = refl }

extreme_rounds-Within_example :
    All
      (TorqueWithin (lit float32 false 10 1))
      (extreme_rounds (lit float32 false 10 1) half_ratio 3 0)
extreme_rounds-Within_example =
    extreme_rounds-Within (lit float32 false 10 1) half_ratio 3 0 ten-IsLimit ten-HasDouble
      half-IsFinite
