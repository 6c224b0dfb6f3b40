-- ===== src/Bench/Extreme.antt =====
-- Which torques the extreme test sets, and on which motor.
use motor_test.Base.{
  ℕ, zero, suc, ◌+◌, ◌*◌, ◌≡◌, refl, ap, ◌∙◌, arith, false, List, [], ◌∷◌, ◌++◌, some,
}
use motor_test.Base.Int.{pos}
use motor_test.Float.{Float, lit, float32}
use motor_test.Motor.{Motors, MotorIndex, first, second}
use motor_test.Bench.{Action, set_tor, set_enable, perform_all}
use motor_test.Bench.Commands.{Word}
use motor_test.Bench.Ramps.{target_arg, extreme_current, extreme_rounds, extreme_condition_testing}
use motor_test.Bench.Endings.{AreOff, extreme-OnFirst, extreme-frame}

-- The torques that actions set on a motor, in order.
abbrev pub torques_on : MotorIndex → List Action → List Float
torques_on i [] = []
torques_on first (set_tor first tor ∷ rest) = tor ∷ torques_on first rest
torques_on second (set_tor second tor ∷ rest) = tor ∷ torques_on second rest
torques_on i (a ∷ rest) = torques_on i rest

-- A current for each of `n` random numbers, from number `k` on.
abbrev pub currents : Float → (ℕ → Float) → ℕ → ℕ → List Float
currents target draw zero k = []
currents target draw (suc n) k = extreme_current target (draw k) ∷ currents target draw n (k + 1)

on_first :
    (target : Float) (draw : ℕ → Float) (n i : ℕ) (rest : List Action)
    → torques_on first (extreme_rounds target draw n i ++ rest)
      ≡ currents target draw (2 * n) (2 * i) ++ torques_on first rest
unfolding extreme_rounds
on_first target draw zero i rest = refl
on_first target draw (suc n) i rest =
    let two : 2 * suc n ≡ suc (suc (2 * n)) = omega arith in
    let next : 2 * i + 1 + 1 ≡ 2 * (i + 1) = omega arith in
    rw (two, next)
      (ap
        (λ cs.
          extreme_current target (draw (2 * i)) ∷ extreme_current target (draw (2 * i + 1)) ∷ cs)
        (on_first target draw n (i + 1) rest))

on_second :
    (target : Float) (draw : ℕ → Float) (n i : ℕ) (rest : List Action)
    → torques_on second (extreme_rounds target draw n i ++ rest) ≡ torques_on second rest
unfolding extreme_rounds
on_second target draw zero i rest = refl
on_second target draw (suc n) i rest = on_second target draw n (i + 1) rest

nothing_behind : (xs : List Float) → xs ++ [] ≡ xs
nothing_behind [] = refl
nothing_behind (x ∷ xs) = ap (x ∷◌) (nothing_behind xs)

-- The extreme test sets 14400 torques on the first motor, one for each random number in order, and none
-- on the second. Where nothing is done between its actions, it ends with both motors disabled and the
-- second one otherwise as it was.
pub extreme_condition_testing-torques_on :
    (atof : Word → Float) (argv : List Word) (draw : ℕ → Float) (g : Motors)
    → let actions = extreme_condition_testing atof argv draw in
      (torques_on first actions
        ≡ currents (target_arg atof (lit float32 false 20 1) argv) draw 14400 0)
      × (torques_on second actions ≡ [])
      × (h : Motors) × (perform_all actions g ≡ some h)
      × AreOff h
      × (h.motor1 ≡ record (g.motor1) { motor_enable = pos 0 })
unfolding extreme_condition_testing
extreme_condition_testing-torques_on atof argv draw g =
    let target = target_arg atof (lit float32 false 20 1) argv in
    let shut_down = set_enable first (pos 0) ∷ set_enable second (pos 0) ∷ [] in
    let e =
      extreme-frame (extreme_rounds target draw 7200 0) g (extreme-OnFirst target draw 7200 0) in
    (
      on_first target draw 7200 0 shut_down ∙ nothing_behind (currents target draw 14400 0),
      on_second target draw 7200 0 shut_down,
      e.0,
      e.1,
      e.2,
      e.3,
    )
