-- ===== src/Shell.antt =====
-- libfinsh/finsh.c and libfinsh/finsh.h: the shell that reads the commands of the bench.
pub mod Table
pub mod Names
pub mod Split
pub mod Complete
pub mod Exec
pub mod History
pub mod Pushed
pub mod Keys
pub mod Safe
pub mod Editor
pub mod Recall
pub mod Words
pub mod Dispatch
pub mod Registry
pub mod Desk
pub mod Session
pub mod Start
pub mod Overrun
pub mod Completion
use motor_test.Base.{ℕ, ◌+◌, Bool, List}
use motor_test.Base.Int.{ℤ}
use motor_test.Base.Memory.{replicate}
use motor_test.Bench.{Action}
use motor_test.Bench.Commands.{Word}

abbrev pub finsh_cmd_size : ℕ
finsh_cmd_size = 128

abbrev pub finsh_history_lines : ℕ
finsh_history_lines = 100

abbrev pub finsh_arg_max : ℕ
finsh_arg_max = 8

-- Where the shell is in the three bytes of an arrow key.
pub data InputStat : Type 0 where
  wait_normal wait_spec_key wait_func_key : InputStat

-- `echo_mode` and `prompt_mode` only decide what is printed, and are left out. `line` has one byte
-- more than a command, and each line of the history as many as a command.
pub record FinshShell : Type 0 where
  pub stat : InputStat
  pub current_history : ℕ
  pub history_count : ℕ
  pub cmd_history : List (List ℕ)
  pub line : List ℕ
  pub line_position : ℕ
  pub line_curpos : ℕ

-- What `calloc` gives.
abbrev pub cleared_shell : FinshShell
cleared_shell = record {
  stat = wait_normal;
  current_history = 0;
  history_count = 0;
  cmd_history = replicate finsh_history_lines (replicate finsh_cmd_size 0);
  line = replicate (finsh_cmd_size + 1) 0;
  line_position = 0;
  line_curpos = 0;
}

-- What a command does: its result, whether it sets `quit_flag`, and its actions on the motors.
pub record Done : Type 0 where
  pub code : ℤ
  pub quits : Bool
  pub actions : List Action

abbrev pub Command : Type 0
Command = List Word → Done
