-- ===== src/Bench/Commands.antt =====
-- The commands of src/test.c that set one value: a result and the actions that it takes.
use motor_test.Base.{ℕ, zero, suc, List, [], ◌∷◌}
use motor_test.Base.Int.{ℤ, pos, negsuc}
use motor_test.Float.{Float, zero_float}
use motor_test.Float.Convert.{narrow}
use motor_test.Motor.{first, second}
use motor_test.Bench.{Action, set_tor, set_vel, set_enable, set_protocol, set_des}

-- A word of the command line; `argc` is the number of words.
abbrev pub Word : Type 0
Word = List ℕ

-- `atof` and `atoi` are the C library's.
module _ (atof : Word → Float) (atoi : Word → ℤ) where
  -- The only argument as a `float`, and 0 without one or with more.
  unfoldable pub float_arg : List Word → Float
  float_arg (_ ∷ a ∷ []) = narrow (atof a)
  float_arg _ = zero_float

  unfoldable pub s_torq : List Word → ℤ × List Action
  s_torq argv = (pos 0, set_tor first (float_arg argv) ∷ [])

  unfoldable pub s2_torq : List Word → ℤ × List Action
  s2_torq argv = (pos 0, set_tor second (float_arg argv) ∷ [])

  unfoldable pub s_vel : List Word → ℤ × List Action
  s_vel argv = (pos 0, set_vel second (float_arg argv) ∷ [])

  unfoldable pub s_pid_vel : List Word → ℤ × List Action
  s_pid_vel argv = (pos 0, set_des (float_arg argv) ∷ [])

  unfoldable pub m_enable : List Word → ℤ × List Action
  m_enable (_ ∷ a ∷ []) = (pos 0, set_enable first (atoi a) ∷ [])
  m_enable _ = (negsuc 0, [])

  unfoldable pub m_enable2 : List Word → ℤ × List Action
  m_enable2 (_ ∷ a ∷ []) = (pos 0, set_enable second (atoi a) ∷ [])
  m_enable2 _ = (negsuc 0, [])

  -- The first argument names the motor; for any but 0 and 1 nothing is set.
  unfoldable pub change_protocol : List Word → ℤ × List Action
  change_protocol (_ ∷ a ∷ b ∷ []) = elim (atoi a) [
    | pos zero ↦ (pos 0, set_protocol first (atoi b) ∷ [])
    | pos (suc zero) ↦ (pos 0, set_protocol second (atoi b) ∷ [])
    | other ↦ (pos 0, [])
  ]
  change_protocol _ = (negsuc 0, [])
