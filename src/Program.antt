-- ===== src/Program.antt =====
-- src/main.c: the motors are set up, and the shell reads commands. The shell runs whatever the set-up has
-- returned.
pub mod Table
pub mod Registered
pub mod Names
pub mod Lines
pub mod Typed
pub mod Frames
use motor_test.Base.{ℕ, List}
use motor_test.Motor.{Motors}
use motor_test.Motor.Init.{Setup, motor_test_init}
use motor_test.Shell.Table.{FinshSyscall}
use motor_test.Shell.Keys.{Ran, finsh}

-- The motors as the threads and the commands find them, and what the shell does with the input.
unfoldable pub main : Setup → List FinshSyscall → List ℕ → Motors × Ran
main env commands input = ((motor_test_init env).1, finsh commands input)
