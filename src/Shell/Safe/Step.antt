-- ===== src/Shell/Safe/Step.antt =====
-- Every byte of input keeps the invariant of the shell, with one exception that the premises name.
use motor_test.Base.{ℕ, ◌≢◌, refl, arith}
use motor_test.Base.{some, none}
use motor_test.Base.Memory.{replicate, All-replicate}
use motor_test.Shell.{cleared_shell}
use motor_test.Shell.Keys.{Outcome}
use motor_test.Shell.Safe.{IsEntry, IsSafe}

abbrev pub SafeOutcome : Outcome → Type 0
SafeOutcome none = ⊥
SafeOutcome (some (t, ran)) = IsSafe t

abbrev pub NotTab : ℕ → Type 0
NotTab ch = ch ≢ b'\t'

pub cleared_shell-IsSafe : IsSafe cleared_shell
cleared_shell-IsSafe = record {
  text = record { sized = refl; ended = refl; cursor = omega arith; room = omega arith };
  past = record {
    hundred = refl;
    all_entries = All-replicate IsEntry 100 (replicate 128 0) (refl, refl);
    counted = omega arith;
    in_count = omega arith;
  };
}
