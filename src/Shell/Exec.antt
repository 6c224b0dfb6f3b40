-- ===== src/Shell/Exec.antt =====
-- Running a command line, `_msh_exec_cmd` and `msh_exec` of libfinsh/finsh.c. A byte that is
-- read behind the buffer counts as 0; `none` is a write behind `argv`.
use motor_test.Base.{
  ◌==◌, ℕ, zero, suc, false, true, if◌then◌else◌, List, [], ◌∷◌, Option, some, none,
}
use motor_test.Base.Int.{ℤ, pos, negsuc}
use motor_test.Shell.{Done, Command}
use motor_test.Shell.Names.{head_or, tail_of}
use motor_test.Shell.Table.{FinshSyscall, msh_get_cmd}
use motor_test.Shell.Split.{Cut, is_blank, msh_split, strings_of}
use motor_test.Bench.Commands.{Word}

-- `cmd0_size`: the bytes before the first blank.
unfoldable pub cmd0_size : List ℕ → ℕ → ℕ
cmd0_size cmd zero = 0
cmd0_size cmd (suc n) =
    let rest = cmd0_size (tail_of cmd) n in if is_blank (head_or cmd) then 0 else suc rest

-- The call with the words that were found; with none the command is not run.
unfoldable pub call_with : Command → List Word → Option Done
call_with func [] = none
call_with func (word ∷ words) = some (func (word ∷ words))

-- What `call_found` takes from the arguments, and what it gives, has `none` for a write outside `argv`.
abbrev pub call_split : Command → Option Cut → Option (Option Done)
call_split func none = none
call_split func (some cut) = some (call_with func (strings_of cut.bytes cut.argv))

-- A command that is not found is not called, and its line not cut.
abbrev pub call_found : Option Command → Option Cut → Option (Option Done)
call_found none cut = some none
call_found (some func) cut = call_split func cut

-- `some none` is the result -1, and the command was not run; `none` is a write outside `argv`.
unfoldable pub exec_cmd : List FinshSyscall → List ℕ → ℕ → Option (Option Done)
exec_cmd commands cmd len =
    let size = cmd0_size cmd len in
    if size == 0 then some none else call_found (msh_get_cmd commands cmd size) (msh_split cmd len)

abbrev pub nothing_done : ℤ → Done
nothing_done code = record { code = code; quits = false; actions = [] }

-- A command that is not found is printed.
abbrev pub done_or_unknown : Option Done → Done
done_or_unknown none = nothing_done (negsuc 0)
done_or_unknown (some done) = done

abbrev pub done_of : Option (Option Done) → Option Done
done_of none = none
done_of (some ran) = some (done_or_unknown ran)

-- From the first byte that is not blank on.
unfoldable pub exec_trimmed : List FinshSyscall → List ℕ → ℕ → Option Done
exec_trimmed commands cmd zero = some (nothing_done (pos 0))
exec_trimmed commands cmd (suc n) = done_of (exec_cmd commands cmd (suc n))

unfoldable pub msh_exec : List FinshSyscall → List ℕ → ℕ → Option Done
msh_exec commands cmd zero = some (nothing_done (pos 0))
msh_exec commands cmd (suc n) =
    let trimmed = msh_exec commands (tail_of cmd) n in
    if is_blank (head_or cmd) then trimmed else exec_trimmed commands cmd (suc n)

-- The commands of the shell itself; `help` prints the table.
unfoldable pub quit : List Word → Done
quit argv = record { code = pos 0; quits = true; actions = [] }

unfoldable pub q : List Word → Done
q argv = record { code = pos 0; quits = true; actions = [] }
