-- ===== src/Tests/Shell.antt =====
-- Runs of the shell at single inputs.
use motor_test.Base.Memory.{store_at, memcpy, strlen, memmove}
use motor_test.Shell.Names.{strncmp_equal, memcmp_equal}
use motor_test.Shell.Complete.{msh_auto_complete, write_name, find_names}
use motor_test.Shell.Exec.{msh_exec, exec_trimmed, exec_cmd, cmd0_size, call_with}
use motor_test.Shell.History.{shell_push_history, up_key}
use motor_test.Shell.Keys.{
  plain_key, insert_key, backspace_key, enter_key, func_key, tab_key, put_in, close_gap,
}
use motor_test.Base.{ℕ, suc, ◌≡◌, refl, false, List, [], ◌∷◌, ◌++◌, Option, some, none, map, Bool}
use motor_test.Base.Int.{ℤ, pos, negsuc}
use motor_test.Base.Memory.{replicate}
use motor_test.Shell.{FinshShell, Done, Command, cleared_shell}
use motor_test.Shell.Table.{FinshSyscall, msh_get_cmd}
use motor_test.Shell.Exec.{quit}
use motor_test.Shell.Split.{msh_split}
use motor_test.Shell.Keys.{finsh_loop, finsh_key}
use motor_test.Base.{◌||◌, ◌==◌}

-- A command that returns the number of its words.
abbrev count_words : List (List ℕ) → ℕ
count_words [] = 0
count_words (w ∷ ws) = suc (count_words ws)

abbrev counting : Command
counting argv = record { code = pos (count_words argv); quits = false; actions = [] }

abbrev table : List FinshSyscall
table =
    record { name = b'g' ∷ b'o' ∷ []; desc = []; func = counting }
    ∷ record { name = b'q' ∷ []; desc = []; func = quit }
    ∷ record { name = b'g' ∷ b'o' ∷ b'a' ∷ b't' ∷ []; desc = []; func = counting }
    ∷ []

abbrev codes : Option (List Done × FinshShell × Bool) → Option (List ℤ)
codes none = none
codes (some (ran, s, ended)) = some (map (λ (d : Done). d.code) ran)

-- `go 1 "a b"`, with a wrong letter taken back, and the command again from the history; then `q`.
abbrev typed : List ℕ
typed =
    b'g' ∷ b'x' ∷ 127 ∷ b'o' ∷ b' ' ∷ b'1' ∷ b' ' ∷ b'"' ∷ b'a' ∷ b' ' ∷ b'b' ∷ b'"' ∷ 10 ∷ 27 ∷ 91
    ∷ 65 ∷ 10 ∷ b'z' ∷ 10 ∷ b'q' ∷ 10 ∷ b'g' ∷ []

session :
    codes (finsh_loop table cleared_shell typed) ≡ some (pos 3 ∷ pos 3 ∷ negsuc 0 ∷ pos 0 ∷ [])
unfolding finsh_loop finsh_key plain_key insert_key put_in close_gap store_at backspace_key
    enter_key msh_exec exec_trimmed exec_cmd cmd0_size call_with msh_get_cmd shell_push_history
    strncmp_equal msh_split func_key up_key memcpy memmove strlen memcmp_equal quit
session = refl

overrun : finsh_loop table cleared_shell (replicate 128 b'x' ++ (9 ∷ b'x' ∷ 127 ∷ 127 ∷ [])) ≡ none
unfolding finsh_loop finsh_key plain_key insert_key put_in close_gap store_at tab_key
    msh_auto_complete strlen strncmp_equal backspace_key memmove write_name find_names
overrun = refl

abbrev has_tab : List ℕ → Bool
has_tab [] = false
has_tab (c ∷ cs) = (c == b'\t') || has_tab cs
