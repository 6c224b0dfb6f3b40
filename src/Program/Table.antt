-- ===== src/Program/Table.antt =====
-- The commands that FINSH_FUNCTION_EXPORT registers before `main`: those of src/test.c, and `help`,
-- `quit` and `q` of libfinsh/finsh.c.
use motor_test.Base.{ℕ, List, [], ◌∷◌, Bool, false}
use motor_test.Base.Int.{ℤ, pos}
use motor_test.Float.{Float}
use motor_test.Bench.{Action}
use motor_test.Bench.Commands.{
  Word, s_torq, s2_torq, s_vel, s_pid_vel, m_enable, m_enable2, change_protocol,
}
use motor_test.Bench.Ramps.{
  tor_test, ttor_test_new, a_max_speed_tor_test, extreme_condition_testing,
}
use motor_test.Bench.Programs.{p2_v, vves_test, vesc_tor_test, dir_test, dir_test2}
use motor_test.Shell.{Command}
use motor_test.Shell.Table.{FinshSyscall}
use motor_test.Shell.Exec.{quit, q}

-- What the C library and the system answer during a command: the numbers in a word, whether the file
-- could be opened, the random numbers, and how often `kbhit` says that no key waits.
pub record Answers : Type 0 where
  pub atof : Word → Float
  pub atoi : Word → ℤ
  pub opened : Bool
  pub draw : ℕ → Float
  pub polls : ℕ

-- A command that says what it returns.
abbrev pub sets : (List Word → ℤ × List Action) → Command
sets run argv = record { code = (run argv).0; quits = false; actions = (run argv).1 }

-- A command that returns 0.
abbrev pub acts : (List Word → List Action) → Command
acts run argv = record { code = pos 0; quits = false; actions = run argv }

-- `FINSH_FUNCTION_EXPORT(name, name)`.
abbrev pub entry : List ℕ → Command → FinshSyscall
entry name func = record { name = name; desc = name; func = func }

-- `help` prints the table, and `p_info` what the sensor and the motors report.
unfoldable pub bench_table : Answers → List FinshSyscall
bench_table a =
    entry (b'h' ∷ b'e' ∷ b'l' ∷ b'p' ∷ []) (acts (λ argv. []))
    ∷ entry (b's' ∷ b'_' ∷ b't' ∷ b'o' ∷ b'r' ∷ b'q' ∷ []) (sets (s_torq a.atof a.atoi))
    ∷ entry (b's' ∷ b'2' ∷ b'_' ∷ b't' ∷ b'o' ∷ b'r' ∷ b'q' ∷ []) (sets (s2_torq a.atof a.atoi))
    ∷ entry (b's' ∷ b'_' ∷ b'v' ∷ b'e' ∷ b'l' ∷ []) (sets (s_vel a.atof a.atoi))
    ∷ entry (b's' ∷ b'_' ∷ b'p' ∷ b'i' ∷ b'd' ∷ b'_' ∷ b'v' ∷ b'e' ∷ b'l' ∷ [])
        (sets (s_pid_vel a.atof a.atoi))
    ∷ entry (b'm' ∷ b'_' ∷ b'e' ∷ b'n' ∷ b'a' ∷ b'b' ∷ b'l' ∷ b'e' ∷ [])
        (sets (m_enable a.atof a.atoi))
    ∷ entry (b'm' ∷ b'_' ∷ b'e' ∷ b'n' ∷ b'a' ∷ b'b' ∷ b'l' ∷ b'e' ∷ b'2' ∷ [])
        (sets (m_enable2 a.atof a.atoi))
    ∷ entry (b'p' ∷ b'_' ∷ b'i' ∷ b'n' ∷ b'f' ∷ b'o' ∷ []) (acts (λ argv. []))
    ∷ entry
        (b'c' ∷ b'h' ∷ b'a' ∷ b'n' ∷ b'g' ∷ b'e' ∷ b'_' ∷ b'p' ∷ b'r' ∷ b'o' ∷ b't' ∷ b'o' ∷ b'c'
          ∷ b'o' ∷ b'l' ∷ [])
        (sets (change_protocol a.atof a.atoi))
    ∷ entry (b't' ∷ b'o' ∷ b'r' ∷ b'_' ∷ b't' ∷ b'e' ∷ b's' ∷ b't' ∷ []) (acts (λ argv. tor_test))
    ∷ entry
        (b't' ∷ b't' ∷ b'o' ∷ b'r' ∷ b'_' ∷ b't' ∷ b'e' ∷ b's' ∷ b't' ∷ b'_' ∷ b'n' ∷ b'e' ∷ b'w'
          ∷ [])
        (acts (λ argv. ttor_test_new a.atof argv a.opened))
    ∷ entry (b'v' ∷ b'v' ∷ b'e' ∷ b's' ∷ b'_' ∷ b't' ∷ b'e' ∷ b's' ∷ b't' ∷ [])
        (acts (vves_test a.atof))
    ∷ entry (b'p' ∷ b'2' ∷ b'_' ∷ b'v' ∷ []) (acts (λ argv. p2_v))
    ∷ entry
        (b'a' ∷ b'_' ∷ b'm' ∷ b'a' ∷ b'x' ∷ b'_' ∷ b's' ∷ b'p' ∷ b'e' ∷ b'e' ∷ b'd' ∷ b'_' ∷ b't'
          ∷ b'o' ∷ b'r' ∷ b'_' ∷ b't' ∷ b'e' ∷ b's' ∷ b't' ∷ [])
        (acts (λ argv. a_max_speed_tor_test a.atof argv a.opened))
    ∷ entry
        (b'e' ∷ b'x' ∷ b't' ∷ b'r' ∷ b'e' ∷ b'm' ∷ b'e' ∷ b'_' ∷ b'c' ∷ b'o' ∷ b'n' ∷ b'd' ∷ b'i'
          ∷ b't' ∷ b'i' ∷ b'o' ∷ b'n' ∷ b'_' ∷ b't' ∷ b'e' ∷ b's' ∷ b't' ∷ b'i' ∷ b'n' ∷ b'g' ∷ [])
        (acts (λ argv. extreme_condition_testing a.atof argv a.draw))
    ∷ entry
        (b'v' ∷ b'e' ∷ b's' ∷ b'c' ∷ b'_' ∷ b't' ∷ b'o' ∷ b'r' ∷ b'_' ∷ b't' ∷ b'e' ∷ b's' ∷ b't'
          ∷ [])
        (acts (λ argv. vesc_tor_test a.atof argv a.opened))
    ∷ entry (b'd' ∷ b'i' ∷ b'r' ∷ b'_' ∷ b't' ∷ b'e' ∷ b's' ∷ b't' ∷ [])
        (acts (λ argv. dir_test a.atof a.atoi argv a.polls))
    ∷ entry (b'd' ∷ b'i' ∷ b'r' ∷ b'_' ∷ b't' ∷ b'e' ∷ b's' ∷ b't' ∷ b'2' ∷ [])
        (acts (λ argv. dir_test2 a.atof a.atoi argv a.polls))
    ∷ entry (b'q' ∷ b'u' ∷ b'i' ∷ b't' ∷ []) (quit)
    ∷ record { name = b'q' ∷ []; desc = b'q' ∷ b'u' ∷ b'i' ∷ b't' ∷ []; func = q }
    ∷ []
