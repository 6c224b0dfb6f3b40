-- ===== src/Bench/Programs.antt =====
-- The remaining test programs of src/test.c. `delay_us` and `sleep` are both waits.
use motor_test.Base.{
  ℕ, zero, suc, ◌*◌, ◌^◌, List, [], ◌∷◌, ◌++◌, Bool, true, false, if◌then◌else◌, ltb, leb,
}
use motor_test.Base.Int.{ℤ, pos, negsuc, wrap}
use motor_test.Float.{Float, float32, float64, zero_float, lit, neg, add, mul, div}
use motor_test.Float.Convert.{narrow, widen, of_int, to_int}
use motor_test.Base.{none, some}
use motor_test.Motor.{first, second}
use motor_test.Bench.Ramps.{ramp}
use motor_test.Bench.Commands.{Word}
use motor_test.Bench.{
  Action, set_tor, set_vel, set_enable, set_protocol, set_des, set_kp, set_ki, sleep, fault,
}

-- The loop that only waits: its current goes nowhere.
unfoldable pub idle : ℕ → List Action
idle zero = []
idle (suc left) = sleep 10000 ∷ idle left

-- The speed, printed 5000 times: it is read once.
unfoldable pub p2_v : List Action
unfolding idle
p2_v = idle 5000

-- The words `argv[2]` and `argv[3]` are read whatever `argc` is: `argv[argc]` is the null pointer,
-- which `atof` does not take.
unfoldable pub vves_test : (Word → Float) → List Word → List Action
unfolding idle
vves_test atof (_ ∷ _ ∷ kp ∷ ki ∷ _) =
    set_protocol second (pos 2)
    ∷ set_kp (narrow (atof kp))
    ∷ set_ki (narrow (atof ki))
    ∷ set_enable second (pos 1)
    ∷ set_des (lit float32 false 3 1)
    ∷ sleep 200000
    ∷ (idle 1000
        ++ (set_enable second (pos 0) ∷ set_des zero_float ∷ set_protocol second (pos 0) ∷ []))
vves_test atof (_ ∷ _ ∷ kp ∷ []) =
    set_protocol second (pos 2) ∷ set_kp (narrow (atof kp)) ∷ fault ∷ []
vves_test atof argv = set_protocol second (pos 2) ∷ fault ∷ []

-- The arguments of the two direction tests: speed, torque and seconds.
pub record DirArgs : Type 0 where
  pub vel : Float
  pub tor : Float
  pub time : ℤ

unfoldable pub dir_args : (Word → Float) → (Word → ℤ) → List Word → DirArgs
dir_args atof atoi (_ ∷ v ∷ t ∷ s ∷ _) = record {
  vel = narrow (atof v);
  tor = narrow (atof t);
  time = atoi s;
}
dir_args atof atoi (_ ∷ v ∷ t ∷ []) = record {
  vel = narrow (atof v);
  tor = narrow (atof t);
  time = pos 2;
}
dir_args atof atoi _ = record {
  vel = lit float32 true 1 1;
  tor = lit float32 false 10 1;
  time = pos 2;
}

-- `sleep(time)`: the argument is converted to `unsigned`.
unfoldable pub seconds : ℤ → Action
seconds time = sleep (wrap (2 ^ 32) time * 1000000)

-- The loop where `kbhit` answers 0 exactly `polls` times before it answers 1. It is asked at the head
-- of a round, in its middle and at its end; `forth` and `back` are the two halves of a round.
unfoldable pub rounds : List Action → List Action → ℕ → List Action
rounds forth back zero = []
rounds forth back (suc zero) = forth
rounds forth back (suc (suc zero)) = forth ++ back
rounds forth back (suc (suc (suc polls))) = forth ++ (back ++ rounds forth back polls)

unfoldable pub dir_test : (Word → Float) → (Word → ℤ) → List Word → ℕ → List Action
unfolding dir_args seconds rounds
dir_test atof atoi argv polls =
    let given = dir_args atof atoi argv in
    let turn : Float → Float → List Action = λ vel tor.
      set_tor first zero_float
      ∷ set_vel second vel
      ∷ sleep 100000
      ∷ set_tor first tor
      ∷ seconds given.time
      ∷ [] in
    set_enable first (pos 1)
    ∷ set_enable second (pos 1)
    ∷ (rounds (turn given.vel given.tor) (turn (neg given.vel) (neg given.tor)) polls
        ++ (set_enable first (pos 0) ∷ set_enable second (pos 0) ∷ sleep 100000 ∷ []))

-- `-tor*0.5` is computed in `double`.
unfoldable pub dir_test2 : (Word → Float) → (Word → ℤ) → List Word → ℕ → List Action
unfolding dir_args seconds rounds
dir_test2 atof atoi argv polls =
    let given = dir_args atof atoi argv in
    let turn : Float → List Action =
      λ tor. set_tor first tor ∷ set_vel second given.vel ∷ seconds given.time ∷ [] in
    let half = narrow (mul float64 (widen (neg given.tor)) (lit float64 false 1 2)) in
    set_enable first (pos 1)
    ∷ set_enable second (pos 1)
    ∷ (rounds (turn given.tor) (turn half) polls
        ++ (set_enable first (pos 0) ∷ set_enable second (pos 0) ∷ []))

-- The arguments of the ramp in time: the largest current, and the seconds with exactly two arguments.
unfoldable pub vesc_args : (Word → Float) → List Word → Float × Float
vesc_args atof (_ ∷ a ∷ b ∷ []) = (narrow (atof a), narrow (atof b))
vesc_args atof (_ ∷ a ∷ _) = (narrow (atof a), lit float32 false 2 1)
vesc_args atof _ = (lit float32 false 50 1, lit float32 false 2 1)

-- `current += step * (i <= times ? 1 : -1)`.
unfoldable pub vesc_step : Float → ℕ → ℕ → Float → Float
vesc_step step times i current =
    add float32 current
      (mul float32 step (of_int float32 (if leb i times then pos 1 else negsuc 0)))

-- Arguments out of range are reported and used all the same. The first `fwrite` is a fault where the
-- file could not be opened; so are the conversion of a time that `int` does not hold, and twice as
-- many rounds as `int` holds. A negative number of rounds is none. The waits here are `delay_us`.
unfoldable pub vesc_tor_test : (Word → Float) → List Word → Bool → List Action
unfolding ramp vesc_args vesc_step
vesc_tor_test atof argv false = fault ∷ []
vesc_tor_test atof argv true =
    let given = vesc_args atof argv in
    elim (to_int float32 (div float32 given.1 (narrow (lit float64 false 1 100)))) [
      | none ↦ fault ∷ []
      | some (negsuc n) ↦ if ltb n (2 ^ 30) then [] else fault ∷ []
      | some (pos times) ↦
          let step = div float32 given.0 (of_int float32 (pos times)) in
          if ltb times (2 ^ 30)
          then ramp first (vesc_step step times) (times * 2) 0 zero_float
          else fault ∷ []
    ]
