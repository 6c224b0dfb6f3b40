-- ===== src/Shell/History.antt =====
-- The history of commands, `shell_push_history` and the up and down keys of libfinsh/finsh.c.
use motor_test.Base.{ℕ, ◌+◌, ◌-◌, ◌%◌, ◌^◌, Bool, true, false, if◌then◌else◌, leb, ltb, ◌==◌}
use motor_test.Base.{List, [], ◌∷◌, ◌++◌, length, get_elem?, set, Option, some, none}
use motor_test.Base.Memory.{take, drop, replicate, memcpy, strlen}
use motor_test.Shell.{FinshShell, finsh_cmd_size, finsh_history_lines}
use motor_test.Shell.Names.{memcmp_equal}

-- `++` and `--` on a `uint16_t`.
abbrev pub next16 : ℕ → ℕ
next16 n = (n + 1) % 2 ^ 16

abbrev pub prev16 : ℕ → ℕ
prev16 n = (n + 65535) % 2 ^ 16

-- The line as an entry: its first `line_position` bytes, copied over zeros. `none` is a copy outside
-- the line or the entry.
unfoldable pub entry_of : FinshShell → Option (List ℕ)
entry_of s = memcpy (replicate finsh_cmd_size 0) s.line s.line_position

abbrev pub compared : FinshShell → Option (List ℕ) → Option Bool
compared s none = none
compared s (some entry) = some (memcmp_equal entry (take finsh_cmd_size s.line))

-- `memcmp` with the entry at `index`; `none` where there is no such entry.
unfoldable pub same_as : FinshShell → ℕ → Option Bool
same_as s index = compared s (get_elem? s.cmd_history index)

-- A full history moves down by one entry.
abbrev pub put_last : FinshShell → Option (List ℕ) → Option FinshShell
put_last s none = none
put_last s (some entry) = some (record s {
  cmd_history = drop 1 s.cmd_history ++ entry ∷ [];
  history_count = finsh_history_lines;
})

-- An entry behind the last one; `none` where it lies behind the history.
unfoldable pub put_next : FinshShell → Option (List ℕ) → Option FinshShell
put_next s none = none
put_next s (some entry) =
    if ltb s.history_count (length s.cmd_history)
    then some (record s {
      cmd_history = set s.cmd_history s.history_count entry;
      history_count = next16 s.history_count;
    })
    else none

abbrev pub unless_same : Option Bool → FinshShell → Option FinshShell → Option FinshShell
unless_same none s pushed = none
unless_same (some true) s pushed = some s
unless_same (some false) s pushed = pushed

-- The history with the line in it: a line like the last one is not put in again.
unfoldable pub with_line : FinshShell → Option FinshShell
unfolding entry_of same_as put_next
with_line s =
    if leb finsh_history_lines s.history_count
    then unless_same (same_as s (finsh_history_lines - 1)) s (put_last s (entry_of s))
    else if s.history_count == 0
    then put_next s (entry_of s)
    else unless_same (same_as s (prev16 s.history_count)) s (put_next s (entry_of s))

abbrev pub at_newest : Option FinshShell → Option FinshShell
at_newest none = none
at_newest (some s) = some (record s { current_history = s.history_count })

-- `none` is an access outside the line, an entry or the history.
unfoldable pub shell_push_history : FinshShell → Option FinshShell
unfolding with_line
shell_push_history s = at_newest (if s.line_position == 0 then some s else with_line s)

-- A line that is there as a whole, with the cursor behind its text.
abbrev pub at_end : FinshShell → List ℕ → Option ℕ → Option FinshShell
at_end s line none = none
at_end s line (some n) = some (record s { line = line; line_position = n; line_curpos = n })

abbrev pub with_line_of : FinshShell → Option (List ℕ) → Option FinshShell
with_line_of s none = none
with_line_of s (some line) = at_end s line (strlen line)

abbrev pub entry_copied : List ℕ → Option (List ℕ) → Option (List ℕ)
entry_copied line none = none
entry_copied line (some entry) = memcpy line entry finsh_cmd_size

-- The entry at `current_history` becomes the line; `none` where there is no such entry.
unfoldable pub recall : FinshShell → Option FinshShell
recall s = with_line_of s (entry_copied s.line (get_elem? s.cmd_history s.current_history))

unfoldable pub up_key : FinshShell → Option FinshShell
unfolding recall
up_key s =
    if s.current_history == 0
    then some s
    else recall (record s { current_history = prev16 s.current_history })

-- `current_history < history_count - 1` is a comparison of `int`s.
unfoldable pub down_key : FinshShell → Option FinshShell
unfolding recall
down_key s =
    if ltb (s.current_history + 1) s.history_count
    then recall (record s { current_history = next16 s.current_history })
    else if s.history_count == 0
    then some s
    else recall (record s { current_history = prev16 s.history_count })
