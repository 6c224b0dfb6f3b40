-- ===== src/Program/Typed.antt =====
-- A command of the program, typed with its arguments at the prompt of the shell.
use mathlib.Core.List.{Memᴰ, Permᴰ, append_assoc}
use mathlib.Core.Path.{subst}
use motor_test.Base.{ℕ, ◌≤◌, ◌≡◌, sym, ap, ◌∙◌, arith}
use motor_test.Base.{List, [], ◌∷◌, ◌++◌, All, All-append, length}
use motor_test.Base.Memory.{take}
use motor_test.Shell.{FinshShell}
use motor_test.Shell.Table.{FinshSyscall, names_of}
use motor_test.Shell.Keys.{Ran, finsh_loop}
use motor_test.Shell.Dispatch.{IsString, run_text, done_by}
use motor_test.Shell.Editor.{in_order}
use motor_test.Shell.Editor.Typing.{IsPrintable}
use motor_test.Shell.Desk.{Desk, press_all, enter, remember, Mirrors}
use motor_test.Shell.Desk.Strings.{in_order-end}
use motor_test.Shell.Session.{run_lines, finsh_loop-run_lines}
use motor_test.Shell.Safe.Tab.{IsShort}
use motor_test.Program.Table.{Answers, bench_table}
use motor_test.Program.Names.{
  IsWord, IsWord-letters, letters-IsPrintable, IsName, bench_table-IsName, bench_table-AreApart,
}
use motor_test.Program.Registered.{All-Memᴰ, All-Permᴰ, lookup-Permᴰ}
use motor_test.Program.Lines.{
  command_line, spaced, run_text-command_line, strokes, prompt, key_bytes_all-strokes,
  press_all-strokes, strokes-CanPressAll, spaced-IsPrintable, after_command, after_lines-one,
}

All-map₂ :
    (P Q : List ℕ → Type 0) (xs : List (List ℕ)) → ((x : List ℕ) → P x → Q x) → All P xs → All Q xs
All-map₂ P Q [] f h = tt
All-map₂ P Q (x ∷ xs) f h = (f x (h.0), All-map₂ P Q xs f (h.1))

-- The desk after a line has been entered at the prompt.
enter-strokes :
    (names past : List (List ℕ)) (xs : List ℕ)
    → enter (press_all names (strokes xs) (prompt past)) ≡ prompt (remember xs past)
unfolding enter
enter-strokes names past xs =
    ap enter (press_all-strokes names past (length past) xs [])
    ∙ ap (λ ys. prompt (remember ys past)) (in_order-end xs)

line_of-strokes :
    (names past : List (List ℕ)) (xs : List ℕ)
    → in_order (press_all names (strokes xs) (prompt past)).line ≡ xs
line_of-strokes names past xs =
    ap (λ (d : Desk). in_order d.line) (press_all-strokes names past (length past) xs [])
    ∙ in_order-end xs

-- A text of printable characters, typed at the prompt and entered.
pub finsh_loop-text :
    (commands : List FinshSyscall) (s : FinshShell) (past : List (List ℕ)) (xs : List ℕ)
    → All IsString (names_of commands)
    → All IsShort (names_of commands)
    → Mirrors (prompt past) s
    → All IsPrintable xs
    → length xs ≤ 127
    → let done = run_text commands xs in
      (u : FinshShell) × ((rest : List ℕ)
        → finsh_loop commands s (xs ++ b'\n' ∷ rest)
          ≡ after_command done u (finsh_loop commands u rest))
      × Mirrors (prompt (remember xs past)) u
unfolding run_lines
finsh_loop-text commands s past xs strings short m printable l =
    let names = names_of commands in
    let line = line_of-strokes names past xs in
    let can = strokes-CanPressAll names past (length past) xs [] printable (omega arith) in
    let run =
      finsh_loop-run_lines commands s (strokes xs ∷ []) (prompt past) strings short m (can, tt) in
    let d = enter (press_all names (strokes xs) (prompt past)) in
    let done = run_text commands (in_order (press_all names (strokes xs) (prompt past)).line) in
    let one = λ (later : Ran). after_lines-one done.quits done d (run.0) later in
    (
      run.0,
      λ rest.
          ap (finsh_loop commands s) (
            sym (append_assoc xs (b'\n' ∷ []) rest)
            ∙ ap (λ ys. (ys ++ b'\n' ∷ []) ++ rest) (sym (key_bytes_all-strokes xs)))
          ∙ run.1 rest
          ∙ (one (finsh_loop commands (run.0) rest)).0
          ∙ ap
              (λ ys.
                after_command (run_text commands ys) (run.0) (finsh_loop commands (run.0) rest))
              line,
      subst (λ e. Mirrors e (run.0))
          ((one (finsh_loop commands (run.0) [])).1 ∙ enter-strokes names past xs) (run.2),
    )

module _ (a : Answers) (table : List FinshSyscall) (p : Permᴰ (bench_table a) table) where
  table-IsName : All IsName (names_of table)
  table-IsName = All-Permᴰ IsName p (bench_table-IsName a)

  -- In whatever order the commands have been registered, a command of the program that is typed at the
  -- prompt with its name and arguments and entered is run on its first eight words; it ends the loop
  -- where it quits, and else the shell is back at the prompt with the line in its history. The arguments
  -- are words of printable characters without blanks and quotes, and the line has at most 127 characters.
  pub finsh_loop-command :
      (cmd : FinshSyscall) (args : List (List ℕ)) (s : FinshShell) (past : List (List ℕ))
      → Memᴰ cmd (bench_table a)
      → All IsWord args
      → length (command_line cmd.name args) ≤ 127
      → Mirrors (prompt past) s
      → let done = cmd.func (take 8 (cmd.name ∷ args)) in
        let line = command_line cmd.name args in
        (u : FinshShell) × ((rest : List ℕ)
          → finsh_loop table s (line ++ b'\n' ∷ rest)
            ≡ after_command done u (finsh_loop table u rest))
        × Mirrors (prompt (remember line past)) u
  finsh_loop-command cmd args s past m h l mirrors =
      let line = command_line cmd.name args in
      let name = All-Memᴰ IsName cmd (bench_table a) (bench_table-IsName a) m in
      let word = letters-IsPrintable cmd.name (IsWord-letters cmd.name (name.0)) in
      let behind = spaced-IsPrintable args h in
      let run =
        finsh_loop-text table s past line
          (All-map₂ IsName IsString (names_of table) (λ x n. n.1) table-IsName)
          (All-map₂ IsName IsShort (names_of table) (λ x n. n.2) table-IsName) mirrors
          (All-append IsPrintable cmd.name (spaced args) word behind) l in
      let found : run_text table line ≡ cmd.func (take 8 (cmd.name ∷ args)) =
        run_text-command_line table cmd.name args (name.0) h
        ∙ ap (λ o. done_by o (take 8 (cmd.name ∷ args)))
            (lookup-Permᴰ cmd (bench_table-AreApart a) p m) in
      (
        run.0,
        λ rest.
            run.1 rest
            ∙ ap (λ done. after_command done (run.0) (finsh_loop table (run.0) rest)) found,
        run.2,
      )
