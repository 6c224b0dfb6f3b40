-- ===== src/Bench/Ramps.antt =====
-- The test programs of src/test.c that ramp a torque: the actions that they take, in order. What they
-- print and write to a file is left out; `opened` says whether the file could be opened.
use motor_test.Base.{
  ℕ, zero, suc, ◌+◌, ◌*◌, ◌/◌, List, [], ◌∷◌, ◌++◌, Bool, true, false, if◌then◌else◌, leb,
}
use motor_test.Base.Int.{ℤ, pos, negsuc}
use motor_test.Float.{Float, float32, float64, zero_float, lit, lt, gt, neg, add, sub, mul, div}
use motor_test.Float.Convert.{narrow, widen, of_int}
use motor_test.Motor.{MotorIndex, first, second}
use motor_test.Bench.Commands.{Word}
use motor_test.Bench.{Action, set_tor, set_enable, set_protocol, set_des, sleep, fault}

-- The loop: round `i` of `left` more, the current stepped, set and held for 10 ms.
unfoldable pub ramp : MotorIndex → (ℕ → Float → Float) → ℕ → ℕ → Float → List Action
ramp m step zero i current = []
ramp m step (suc left) i current =
    let current' = step i current in
    set_tor m current' ∷ sleep 10000 ∷ ramp m step left (i + 1) current'

-- The current after the loop.
unfoldable pub ramp_end : (ℕ → Float → Float) → ℕ → ℕ → Float → Float
ramp_end step zero i current = current
ramp_end step (suc left) i current = ramp_end step left (i + 1) (step i current)

-- 1 in the first half of the rounds, and -1 from then on.
abbrev pub direction : ℕ → ℕ → ℤ
direction times i = if leb (times / 2) i then negsuc 0 else pos 1

-- `current += 0.1 * direction`, in `double`.
unfoldable pub tor_step : ℕ → Float → Float
tor_step i current = narrow (
    add float64 (widen current)
      (mul float64 (lit float64 false 1 10) (of_int float64 (direction 800 i))))

unfoldable pub tor_test : List Action
unfolding ramp
tor_test =
    set_enable first (pos 1)
    ∷ (ramp first tor_step 800 0 zero_float ++ (set_enable first (pos 0) ∷ []))

-- `current += target * 2.0f / times * direction`, in `float`.
unfoldable pub target_step : Float → ℕ → ℕ → Float → Float
target_step target times i current = add float32 current (
    mul float32
      (div float32 (mul float32 target (lit float32 false 2 1)) (of_int float32 (pos times)))
      (of_int float32 (direction times i)))

-- `fclose` of a file that was not opened.
abbrev close_file : Bool → List Action
close_file true = []
close_file false = fault ∷ []

-- The only argument as the target, and the program's own without one or with more.
unfoldable pub target_arg : (Word → Float) → Float → List Word → Float
target_arg atof default (_ ∷ a ∷ []) = narrow (atof a)
target_arg atof default _ = default

unfoldable pub ttor_test_new : (Word → Float) → List Word → Bool → List Action
unfolding ramp target_arg
ttor_test_new atof argv opened =
    let target = target_arg atof (lit float32 false 10 1) argv in
    set_protocol second (pos 2)
    ∷ set_enable first (pos 1)
    ∷ set_enable second (pos 1)
    ∷ set_des (lit float32 false 5 1)
    ∷ sleep 200000
    ∷ (ramp first (target_step target 2000) 2000 0 zero_float
        ++ (set_enable first (pos 0)
            ∷ set_enable second (pos 0)
            ∷ set_des zero_float
            ∷ set_protocol second (pos 0)
            ∷ close_file opened))

-- The current of the third loop goes down by the same step.
unfoldable pub falling_step : Float → ℕ → ℕ → Float → Float
falling_step target times i current = sub float32 current (
    mul float32
      (div float32 (mul float32 target (lit float32 false 2 1)) (of_int float32 (pos times)))
      (of_int float32 (direction times i)))

unfoldable pub a_max_speed_tor_test : (Word → Float) → List Word → Bool → List Action
unfolding ramp ramp_end target_arg
a_max_speed_tor_test atof argv opened =
    let target = target_arg atof (lit float32 false 10 1) argv in
    let rising = target_step target 2000 in
    let peak = ramp_end rising 1000 0 zero_float in
    set_enable first (pos 1)
    ∷ set_enable second (pos 1)
    ∷ (ramp first rising 1000 0 zero_float
        ++ (ramp second rising 2000 0 zero_float
            ++ (ramp first (falling_step target 2000) 1000 0 peak
                ++ (set_enable first (pos 0) ∷ set_enable second (pos 0) ∷ close_file opened))))

-- A random current, doubled and then limited to the target. `rand_ratio` is `1.0 * (rand() % RAND_MAX)
-- / RAND_MAX`, a `double` from the C library's generator.
unfoldable pub extreme_current : Float → Float → Float
extreme_current target rand_ratio =
    let drawn = narrow (
      mul float64
        (add float64 (widen (mul float32 (lit float32 true 1 1) target))
          (mul float64 rand_ratio (widen (mul float32 target (lit float32 false 2 1)))))
        (lit float64 false 2 1)) in
    let capped = if gt drawn target then target else drawn in
    if lt capped (neg target) then neg target else capped

-- Round `i` draws two currents; the code sets both on the first motor.
unfoldable pub extreme_rounds : Float → (ℕ → Float) → ℕ → ℕ → List Action
unfolding extreme_current
extreme_rounds target draw zero i = []
extreme_rounds target draw (suc left) i =
    set_tor first (extreme_current target (draw (2 * i)))
    ∷ set_tor first (extreme_current target (draw (2 * i + 1)))
    ∷ sleep 50000
    ∷ extreme_rounds target draw left (i + 1)

unfoldable pub extreme_condition_testing : (Word → Float) → List Word → (ℕ → Float) → List Action
unfolding extreme_rounds target_arg
extreme_condition_testing atof argv draw =
    let target = target_arg atof (lit float32 false 20 1) argv in
    set_enable first (pos 1)
    ∷ set_enable second (pos 1)
    ∷ sleep 2000000
    ∷ (extreme_rounds target draw 7200 0
        ++ (set_enable first (pos 0) ∷ set_enable second (pos 0) ∷ []))
