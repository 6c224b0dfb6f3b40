-- ===== src/Shell/Keys.antt =====
-- The loop of `finsh` of libfinsh/finsh.c: one byte of input at a time. What is printed is left out.
use motor_test.Base.{ℕ, ◌+◌, ◌-◌, Bool, true, false, ◌||◌, if◌then◌else◌, leb, ltb, ◌==◌}
use motor_test.Base.{List, [], ◌∷◌, ◌++◌, Option, some, none}
use motor_test.Base.Memory.{memmove, store_at, replicate}
use motor_test.Shell.{
  FinshShell, InputStat, wait_normal, wait_spec_key, wait_func_key, finsh_cmd_size, Done,
}
use motor_test.Shell.{cleared_shell}
use motor_test.Shell.Table.{FinshSyscall, names_of}
use motor_test.Shell.Complete.{msh_auto_complete}
use motor_test.Shell.Exec.{msh_exec}
pub use motor_test.Shell.History.{next16, prev16}
use motor_test.Shell.History.{shell_push_history, with_line_of, up_key, down_key}

-- The shell after a byte, and the command that it ran, if any. `none` is an access outside a buffer.
abbrev pub Outcome : Type 0
Outcome = Option (FinshShell × List Done)

abbrev pub quietly : Option FinshShell → Outcome
quietly none = none
quietly (some s) = some (s, [])

unfoldable pub left_key : FinshShell → FinshShell
left_key s = if s.line_curpos == 0 then s else record s { line_curpos = prev16 s.line_curpos }

unfoldable pub right_key : FinshShell → FinshShell
right_key s =
    if ltb s.line_curpos s.line_position then record s { line_curpos = next16 s.line_curpos } else s

unfoldable pub tab_key : List FinshSyscall → FinshShell → Option FinshShell
tab_key commands s = with_line_of s (msh_auto_complete (names_of commands) s.line)

-- The byte before the cursor goes away; `s` has its positions counted down already. The subtraction
-- is one of `int`s, and its result a `size_t`; here it is not negative.
unfoldable pub close_gap : FinshShell → Option (List ℕ)
close_gap s =
    if ltb s.line_curpos s.line_position
    then elim (memmove s.line s.line_curpos (s.line_curpos + 1) (s.line_position - s.line_curpos)) [
      | none ↦ none
      | some line ↦ store_at line s.line_position 0
    ]
    else store_at s.line s.line_position 0

abbrev pub with_text : FinshShell → Option (List ℕ) → Option FinshShell
with_text s none = none
with_text s (some line) = some (record s { line = line })

unfoldable pub backspace_key : FinshShell → Option FinshShell
backspace_key s =
    let moved = record s {
      line_position = prev16 s.line_position;
      line_curpos = prev16 s.line_curpos;
    } in
    if s.line_curpos == 0 then some s else with_text moved (close_gap moved)

-- The line is cleared after its command.
abbrev pub line_entered : FinshShell → Option Done → Outcome
line_entered s none = none
line_entered s (some done) = some (
  record s { line = replicate (finsh_cmd_size + 1) 0; line_position = 0; line_curpos = 0 },
  done ∷ [],
)

unfoldable pub enter_key : List FinshSyscall → FinshShell → Outcome
enter_key commands s = elim (shell_push_history s) [
  | none ↦ none
  | some pushed ↦ line_entered pushed (msh_exec commands pushed.line pushed.line_position)
]

-- A long line is given up before the byte is put in at the cursor.
abbrev pub shortened : FinshShell → FinshShell
shortened s = if leb finsh_cmd_size s.line_position then record s { line_position = 0 } else s

unfoldable pub put_in : FinshShell → ℕ → Option (List ℕ)
put_in s ch =
    if ltb s.line_curpos s.line_position
    then elim (memmove s.line (s.line_curpos + 1) s.line_curpos (s.line_position - s.line_curpos)) [
      | none ↦ none
      | some line ↦ store_at line s.line_curpos ch
    ]
    else store_at s.line s.line_position ch

-- The positions afterwards; a full line is given up.
abbrev pub advanced : FinshShell → FinshShell
advanced s =
    if leb finsh_cmd_size (next16 s.line_position)
    then record s { line_position = 0; line_curpos = 0 }
    else record s { line_position = next16 s.line_position; line_curpos = next16 s.line_curpos }

unfoldable pub insert_key : FinshShell → ℕ → Option FinshShell
insert_key s ch = let t = shortened s in with_text (advanced t) (put_in t ch)

-- A byte outside the sequences of the arrow keys. (`ch == 0xFF` never holds of a `char`.)
unfoldable pub plain_key : List FinshSyscall → FinshShell → ℕ → Outcome
plain_key commands s ch =
    if ch == 0
    then some (s, [])
    else if ch == b'\t'
    then quietly (tab_key commands s)
    else if (ch == 0x7F) || (ch == 0x08)
    then quietly (backspace_key s)
    else if (ch == b'\r') || (ch == b'\n')
    then enter_key commands s
    else quietly (insert_key s ch)

-- The third byte of an arrow key; any other is taken as it is.
unfoldable pub func_key : List FinshSyscall → FinshShell → ℕ → Outcome
func_key commands s ch =
    if ch == 0x41
    then quietly (up_key s)
    else if ch == 0x42
    then quietly (down_key s)
    else if ch == 0x44
    then some (left_key s, [])
    else if ch == 0x43
    then some (right_key s, [])
    else plain_key commands s ch

unfoldable pub by_stat : InputStat → List FinshSyscall → FinshShell → ℕ → Outcome
by_stat wait_normal commands s ch = plain_key commands s ch
by_stat wait_spec_key commands s ch =
    if ch == 0x5B
    then some (record s { stat = wait_func_key }, [])
    else plain_key commands (record s { stat = wait_normal }) ch
by_stat wait_func_key commands s ch = func_key commands (record s { stat = wait_normal }) ch

-- One byte from `getchar`. `char` is signed: a byte from 128 on, and the end of the input, which is
-- 255 as a byte, are negative and passed over.
unfoldable pub finsh_key : List FinshSyscall → FinshShell → ℕ → Outcome
unfolding by_stat
finsh_key commands s ch =
    if leb 128 ch
    then some (s, [])
    else if ch == 0x1B
    then some (record s { stat = wait_spec_key }, [])
    else by_stat s.stat commands s ch

abbrev pub any_quits : List Done → Bool
any_quits [] = false
any_quits (d ∷ ds) = d.quits || any_quits ds

-- What the commands did, the shell at the end, and whether the loop has ended. `none` is an access
-- outside a buffer.
abbrev pub Ran : Type 0
Ran = Option (List Done × FinshShell × Bool)

abbrev pub followed : List Done → Ran → Ran
followed ran none = none
followed ran (some (later, s, ended)) = some (ran ++ later, s, ended)

-- The loop ends after a byte whose command sets `quit_flag`.
abbrev pub after_key : Outcome → (FinshShell → Ran) → Ran
after_key none next = none
after_key (some (t, ran)) next =
    if any_quits ran then some (ran, t, true) else followed ran (next t)

-- The loop over the bytes of the input.
unfoldable pub finsh_loop : List FinshSyscall → FinshShell → List ℕ → Ran
finsh_loop commands s [] = some ([], s, false)
finsh_loop commands s (ch ∷ input) =
    after_key (finsh_key commands s ch) (λ t. finsh_loop commands t input)

unfoldable pub finsh : List FinshSyscall → List ℕ → Ran
unfolding finsh_loop
finsh commands input = finsh_loop commands cleared_shell input
