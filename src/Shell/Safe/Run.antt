-- ===== src/Shell/Safe/Run.antt =====
-- Running a line, `msh_exec` of libfinsh/finsh.c, whatever bytes the line has.
use motor_test.Base.{ℕ, zero, suc, ◌+◌, ◌≡◌, refl, ap, ◌∙◌, ◌==◌, Bool-cases, inl, inr}
use motor_test.Base.{List, Option, some, none}
use motor_test.Base.Int.{pos}
use motor_test.Shell.{FinshShell, Done, Command}
use motor_test.Shell.Names.{head_or, tail_of}
use motor_test.Shell.Table.{FinshSyscall, msh_get_cmd}
use motor_test.Shell.Split.{Cut, is_blank, split}
use motor_test.Shell.Exec.{
  cmd0_size, call_found, exec_cmd, done_of, done_or_unknown, nothing_done, exec_trimmed, msh_exec,
}
use motor_test.Shell.History.{shell_push_history}
use motor_test.Shell.Keys.{line_entered, enter_key}
use motor_test.Shell.Words.Room.{msh_split-split}

call_found-total :
    (o : Option Command) (cut : Cut) → (ran : Option Done) × (call_found o (some cut) ≡ some ran)
call_found-total none cut = (none, refl)
call_found-total (some func) cut = (_, refl)

exec_cmd-total :
    (commands : List FinshSyscall) (cmd : List ℕ) (len : ℕ)
    → (ran : Option Done) × (exec_cmd commands cmd len ≡ some ran)
unfolding exec_cmd
exec_cmd-total commands cmd len = elim (Bool-cases (cmd0_size cmd len == 0)) [
  | inl p ↦ (none, rw p refl)
  | inr p ↦
      let found = msh_get_cmd commands cmd (cmd0_size cmd len) in
      let ran = call_found-total found (split (len + 1) len cmd 0 0) in
      (ran.0, rw p (ap (call_found found) (msh_split-split cmd len) ∙ ran.1))
]

-- A line is run without a write behind `argv`.
pub msh_exec-total :
    (commands : List FinshSyscall) (cmd : List ℕ) (len : ℕ)
    → (done : Done) × (msh_exec commands cmd len ≡ some done)
unfolding msh_exec exec_trimmed
msh_exec-total commands cmd zero = (nothing_done (pos 0), refl)
msh_exec-total commands cmd (suc n) = elim (Bool-cases (is_blank (head_or cmd))) [
  | inl p ↦ let later = msh_exec-total commands (tail_of cmd) n in (later.0, rw p (later.1))
  | inr p ↦
      let ran = exec_cmd-total commands cmd (suc n) in
      (done_or_unknown ran.0, rw p (ap done_of ran.1))
]

-- The enter key, where the line has been put in the history and run.
pub enter_key-line_entered :
    (commands : List FinshSyscall) (s u : FinshShell) (done : Done)
    → shell_push_history s ≡ some u
    → msh_exec commands u.line u.line_position ≡ some done
    → enter_key commands s ≡ line_entered u (some done)
unfolding enter_key
enter_key-line_entered commands s u done pushed ran =
    rw (pushed, enter_key) (ap (line_entered u) ran)
