-- ===== src/Bench/Endings.antt =====
-- How the test programs leave the motors.
use motor_test.Base.{
  ℕ, zero, suc, ◌+◌, ◌≡◌, refl, ◌∙◌, List, [], ◌∷◌, ◌++◌, some, none, true, false,
}
use motor_test.Base.{All, All-append}
use motor_test.Base.Int.{ℤ, pos}
use motor_test.Float.{Float, zero_float, lit, float32}
use motor_test.Motor.{MotorMit, Motors, first, second}
use motor_test.Bench.{
  Action, set_tor, set_vel, set_enable, set_protocol, set_des, set_kp, set_ki, sleep,
}
use motor_test.Bench.{fault, perform, perform_all}
use motor_test.Bench.Commands.{Word}
use motor_test.Bench.Ramps.{ramp, target_step, target_arg, ttor_test_new}
use motor_test.Bench.Ramps.{extreme_rounds}
use motor_test.Bench.Programs.{rounds, dir_test, dir_test2, seconds}

-- An action on the first motor, or a wait.
abbrev OnFirst : Action → Type 0
OnFirst (set_tor first tor) = Unit
OnFirst (set_enable first e) = Unit
OnFirst (sleep us) = Unit
OnFirst _ = ⊥

-- An action that sets a torque or a speed, or waits.
abbrev IsDrive : Action → Type 0
IsDrive (set_tor i tor) = Unit
IsDrive (set_vel i vel) = Unit
IsDrive (sleep us) = Unit
IsDrive _ = ⊥

-- Actions on the first motor, followed by others, leave the second motor to the others.
perform-OnFirst :
    (xs ys : List Action) (g : Motors)
    → All OnFirst xs
    → (m : MotorMit) × (perform_all (xs ++ ys) g ≡ perform_all ys (record g { motor0 = m }))
unfolding perform_all perform
perform-OnFirst [] ys g h = (g.motor0, refl)
perform-OnFirst (set_tor first tor ∷ xs) ys g h = perform-OnFirst xs ys _ h.1
perform-OnFirst (set_enable first e ∷ xs) ys g h = perform-OnFirst xs ys _ h.1
perform-OnFirst (sleep us ∷ xs) ys g h = perform-OnFirst xs ys g h.1
perform-OnFirst (set_tor second tor ∷ xs) ys g h = absurd h.0
perform-OnFirst (set_vel i vel ∷ xs) ys g h = absurd h.0
perform-OnFirst (set_enable second e ∷ xs) ys g h = absurd h.0
perform-OnFirst (set_protocol i p ∷ xs) ys g h = absurd h.0
perform-OnFirst (set_des des ∷ xs) ys g h = absurd h.0
perform-OnFirst (set_kp kp ∷ xs) ys g h = absurd h.0
perform-OnFirst (set_ki ki ∷ xs) ys g h = absurd h.0
perform-OnFirst (fault ∷ xs) ys g h = absurd h.0

-- Driving the motors never fails.
perform-IsDrive :
    (xs ys : List Action) (g : Motors)
    → All IsDrive xs
    → (h : Motors) × (perform_all (xs ++ ys) g ≡ perform_all ys h)
unfolding perform_all perform
perform-IsDrive [] ys g h = (g, refl)
perform-IsDrive (set_tor i tor ∷ xs) ys g h = perform-IsDrive xs ys _ h.1
perform-IsDrive (set_vel i vel ∷ xs) ys g h = perform-IsDrive xs ys _ h.1
perform-IsDrive (sleep us ∷ xs) ys g h = perform-IsDrive xs ys g h.1
perform-IsDrive (set_enable i e ∷ xs) ys g h = absurd h.0
perform-IsDrive (set_protocol i p ∷ xs) ys g h = absurd h.0
perform-IsDrive (set_des des ∷ xs) ys g h = absurd h.0
perform-IsDrive (set_kp kp ∷ xs) ys g h = absurd h.0
perform-IsDrive (set_ki ki ∷ xs) ys g h = absurd h.0
perform-IsDrive (fault ∷ xs) ys g h = absurd h.0

ramp-OnFirst :
    (step : ℕ → Float → Float) (n i : ℕ) (current : Float)
    → All OnFirst (ramp first step n i current)
unfolding ramp
ramp-OnFirst step zero i current = tt
ramp-OnFirst step (suc n) i current = (tt, (tt, ramp-OnFirst step n (i + 1) (step i current)))

pub extreme-OnFirst :
    (target : Float) (draw : ℕ → Float) (n i : ℕ) → All OnFirst (extreme_rounds target draw n i)
unfolding extreme_rounds
extreme-OnFirst target draw zero i = tt
extreme-OnFirst target draw (suc n) i = (tt, (tt, (tt, extreme-OnFirst target draw n (i + 1))))

rounds-IsDrive :
    (forth back : List Action) (polls : ℕ)
    → All IsDrive forth
    → All IsDrive back
    → All IsDrive (rounds forth back polls)
unfolding rounds
rounds-IsDrive forth back zero f b = tt
rounds-IsDrive forth back (suc zero) f b = f
rounds-IsDrive forth back (suc (suc zero)) f b = All-append IsDrive forth back f b
rounds-IsDrive forth back (suc (suc (suc polls))) f b =
    let rest = rounds-IsDrive forth back polls f b in
    All-append IsDrive forth _ f (All-append IsDrive back _ b rest)

-- Both motors are disabled.
pub record AreOff (g : Motors) : Type 0 where
  pub off0 : g.motor0.motor_enable ≡ pos 0
  pub off1 : g.motor1.motor_enable ≡ pos 0

-- The two writes that a test program ends with.
abbrev shut_down : List Action
shut_down = set_enable first (pos 0) ∷ set_enable second (pos 0) ∷ []

perform_all-nothing : (h : Motors) → perform_all [] h ≡ some h
unfolding perform_all
perform_all-nothing h = refl

perform_all-sleep : (us : ℕ) (h : Motors) → perform_all (sleep us ∷ []) h ≡ some h
unfolding perform_all perform
perform_all-sleep us h = refl

dir-frame :
    (xs rest : List Action) (g : Motors)
    → All IsDrive xs
    → ((h : Motors) → perform_all rest h ≡ some h)
    → (h : Motors) × (perform_all
          (set_enable first (pos 1) ∷ set_enable second (pos 1) ∷ (xs ++ (shut_down ++ rest)))
          g
        ≡ some h)
      × AreOff h
unfolding perform_all perform
dir-frame xs rest g d waits =
    let run = perform-IsDrive xs (shut_down ++ rest) _ d in
    (_, run.1 ∙ waits _, record { off0 = refl; off1 = refl })

-- However often the keyboard is polled before a key ends it, the direction test runs to its end and
-- leaves both motors disabled, whatever its arguments.
pub dir_test-AreOff :
    (atof : Word → Float) (atoi : Word → ℤ) (argv : List Word) (polls : ℕ) (g : Motors)
    → (h : Motors) × (perform_all (dir_test atof atoi argv polls) g ≡ some h) × AreOff h
unfolding dir_test seconds
dir_test-AreOff atof atoi argv polls g =
    dir-frame _ _ g
      (rounds-IsDrive _ _ polls (tt, (tt, (tt, (tt, (tt, tt))))) (tt, (tt, (tt, (tt, (tt, tt))))))
      (perform_all-sleep 100000)

-- The same of the second direction test.
dir_test2-AreOff :
    (atof : Word → Float) (atoi : Word → ℤ) (argv : List Word) (polls : ℕ) (g : Motors)
    → (h : Motors) × (perform_all (dir_test2 atof atoi argv polls) g ≡ some h) × AreOff h
unfolding dir_test2 seconds
dir_test2-AreOff atof atoi argv polls g =
    dir-frame _ _ g (rounds-IsDrive _ _ polls (tt, (tt, (tt, tt))) (tt, (tt, (tt, tt))))
      perform_all-nothing

abbrev ttor_head : List Action
ttor_head =
    set_protocol second (pos 2)
    ∷ set_enable first (pos 1)
    ∷ set_enable second (pos 1)
    ∷ set_des (lit float32 false 5 1)
    ∷ sleep 200000
    ∷ []

abbrev ttor_tail : List Action
ttor_tail = shut_down ++ (set_des zero_float ∷ set_protocol second (pos 0) ∷ [])

ttor-frame :
    (xs : List Action) (g : Motors)
    → All OnFirst xs
    → ((h : Motors) × (perform_all (ttor_head ++ (xs ++ ttor_tail)) g ≡ some h)
        × AreOff h
        × (h.motor1.protocol ≡ pos 0)
        × (h.motor1.pid.des ≡ zero_float)
        × (h.motor1.control ≡ g.motor1.control))
      × (perform_all (ttor_head ++ (xs ++ (ttor_tail ++ fault ∷ []))) g ≡ none)
unfolding perform_all perform
ttor-frame xs g d =
    let run = perform-OnFirst xs ttor_tail _ d in
    let other = perform-OnFirst xs (ttor_tail ++ fault ∷ []) _ d in
    ((_, run.1, record { off0 = refl; off1 = refl }, refl, refl, refl), other.1)

-- Where nothing is done between its actions, the command with a file that could be opened leaves both
-- motors disabled, sets the second one's protocol and desired speed to 0, whatever they were, and leaves
-- that motor's command as it was. When the file could not be opened, the command fails.
pub ttor_test_new-ends :
    (atof : Word → Float) (argv : List Word) (g : Motors)
    → ((h : Motors) × (perform_all (ttor_test_new atof argv true) g ≡ some h)
        × AreOff h
        × (h.motor1.protocol ≡ pos 0)
        × (h.motor1.pid.des ≡ zero_float)
        × (h.motor1.control ≡ g.motor1.control))
      × (perform_all (ttor_test_new atof argv false) g ≡ none)
unfolding ttor_test_new
ttor_test_new-ends atof argv g =
    let step = target_step (target_arg atof (lit float32 false 10 1) argv) 2000 in
    ttor-frame (ramp first step 2000 0 zero_float) g (ramp-OnFirst step 2000 0 zero_float)

pub extreme-frame :
    (xs : List Action) (g : Motors)
    → All OnFirst xs
    → (h : Motors) × (perform_all
          (set_enable first (pos 1) ∷ set_enable second (pos 1) ∷ sleep 2000000 ∷ (xs ++ shut_down))
          g
        ≡ some h)
      × AreOff h
      × (h.motor1 ≡ record (g.motor1) { motor_enable = pos 0 })
unfolding perform_all perform
extreme-frame xs g d =
    let run = perform-OnFirst xs shut_down _ d in
    (_, run.1, record { off0 = refl; off1 = refl }, refl)
