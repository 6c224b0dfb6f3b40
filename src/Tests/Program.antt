-- ===== src/Tests/Program.antt =====
-- The theorems on lines at the keyboard and frames on the bus, at a concrete line.
use mathlib.Core.List.Memᴰ.{head, tail}
use mathlib.Core.List.Permᴰ
use motor_test.Base.{ℕ, ◌-◌, ◌≡◌, ◌≢◌, refl, arith, true, false, List, [], ◌∷◌, ◌++◌, some}
use motor_test.Base.Int.{pos}
use motor_test.Float.{float64, lit, zero_float}
use motor_test.Float.Convert.{narrow}
use motor_test.Motor.{Motors, first, set_motor_tor}
use motor_test.Motor.Cycle.{Round, kind_of, command, protocol_of, is_set, last_at}
use motor_test.Motor.Init.{Setup, motor_test_init, with_bus, with_params}
use motor_test.Motor.Start.{init-AreSound}
use motor_test.Motor.Rounds.{own_codes}
use motor_test.Motor.Modes.{mode_bytes}
use motor_test.Protocol.Layout.{read_fields}
use motor_test.Bench.{set_tor, set_enable, perform_all}
use motor_test.Bench.Commands.{Word, m_enable}
use motor_test.Shell.{FinshShell, Done, cleared_shell}
use motor_test.Shell.Names.{head_or}
use motor_test.Shell.Keys.{finsh_loop}
use motor_test.Shell.Desk.{remember, Mirrors}
use motor_test.Shell.Start.{cleared_shell-Mirrors}
use motor_test.Program.Table.{Answers, bench_table, entry, sets}
use motor_test.Program.Names.{IsWord}
use motor_test.Program.Lines.{command_line, prompt, after_command}
use motor_test.Program.Typed.{finsh_loop-command}
use motor_test.Program.Frames.{
  torque_name, enable_name, Performs, Sends, s_torq-sent, m_enable-sent,
}

-- The number of a digit.
abbrev digits : Answers
digits = record {
  atof = λ w. lit float64 false (head_or w - b'0') 1;
  atoi = λ w. pos (head_or w - b'0');
  opened = true;
  draw = λ i. zero_float;
  polls = 0;
}

abbrev working : Setup
working = record { sensor_result = pos 0; can_handle = some 1; thread_result = pos 0 }

working-starts : (motor_test_init working).0 ≡ pos 0
unfolding motor_test_init
working-starts = refl

-- The communication thread before its first turn.
abbrev first_round : Round
first_round = record {
  motors = (motor_test_init working).1;
  last = record { last0 = pos 0; last1 = pos 0 };
  sent = [];
}

abbrev two : Word
two = b'2' ∷ []

abbrev one : Word
one = b'1' ∷ []

two-IsWord : IsWord two
two-IsWord = ((omega arith, omega arith, λ e. omega arith), tt)

one-IsWord : IsWord one
one-IsWord = ((omega arith, omega arith, λ e. omega arith), tt)

in_protocol_0 : protocol_of first_round.motors.motor0.protocol ≡ some 0
unfolding motor_test_init with_bus with_params protocol_of
in_protocol_0 = refl

flag_unchanged :
    kind_of (last_at first_round.last first) first_round.motors.motor0.motor_enable ≡ command
unfolding motor_test_init with_bus with_params kind_of
flag_unchanged = refl

flag_changes : is_set (last_at first_round.last first) ≢ is_set (digits.atoi one)
flag_changes e = cc

-- `s_torq 2`
s_torq-sent_example :
    let tor = narrow (lit float64 false 2 1) in
    Performs
      (bench_table digits)
      cleared_shell
      []
      (command_line torque_name (two ∷ []))
      (set_tor first tor ∷ [])
    × (g : Motors) × (perform_all (set_tor first tor ∷ []) first_round.motors ≡ some g)
    × Sends
        (record first_round { motors = g })
        first
        (λ bytes. read_fields bytes ≡ own_codes (set_motor_tor first_round.motors.motor0 tor))
s_torq-sent_example =
    s_torq-sent digits (bench_table digits) (Permᴰ.refl (bench_table digits)) cleared_shell []
      cleared_shell-Mirrors two two-IsWord first_round (init-AreSound working working-starts)
      (omega arith) in_protocol_0 flag_unchanged

-- `m_enable 1`
m_enable-sent_example :
    Performs
      (bench_table digits)
      cleared_shell
      []
      (command_line enable_name (one ∷ []))
      (set_enable first (pos 1) ∷ [])
    × (g : Motors) × (perform_all (set_enable first (pos 1) ∷ []) first_round.motors ≡ some g)
    × Sends (record first_round { motors = g }) first (λ bytes. bytes ≡ mode_bytes 0xFC)
m_enable-sent_example =
    m_enable-sent digits (bench_table digits) (Permᴰ.refl (bench_table digits)) cleared_shell []
      cleared_shell-Mirrors one one-IsWord first_round (init-AreSound working working-starts) 0
      (omega arith) in_protocol_0 flag_changes

-- `m_enable 1` again, as any command is.
finsh_loop-command_example :
    let done : Done = record {
      code = pos 0;
      quits = false;
      actions = set_enable first (pos 1) ∷ [];
    } in
    let line = command_line enable_name (one ∷ []) in
    (u : FinshShell) × ((rest : List ℕ)
      → finsh_loop (bench_table digits) cleared_shell (line ++ b'\n' ∷ rest)
        ≡ after_command done u (finsh_loop (bench_table digits) u rest))
    × Mirrors (prompt (line ∷ [])) u
unfolding bench_table m_enable remember
finsh_loop-command_example =
    finsh_loop-command digits (bench_table digits) (Permᴰ.refl (bench_table digits))
      (entry enable_name (sets (m_enable digits.atof digits.atoi))) (one ∷ []) cleared_shell []
      (tail (tail (tail (tail (tail (head refl)))))) (one-IsWord, tt) (omega arith)
      cleared_shell-Mirrors
