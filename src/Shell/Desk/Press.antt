-- ===== src/Shell/Desk/Press.antt =====
-- Every key does on the shell what it does on the desk.
use motor_test.Base.{refl, ap, ◌∙◌}
use motor_test.Base.{List, [], ◌∷◌, ◌++◌, All}
use mathlib.Core.List.{append_assoc}
use motor_test.Shell.{FinshShell}
use motor_test.Shell.Table.{FinshSyscall, names_of}
use motor_test.Shell.Keys.{finsh_loop}
use motor_test.Shell.Dispatch.{IsString}
use motor_test.Shell.Safe.Tab.{IsShort}
use motor_test.Shell.Editor.{in_order}
use motor_test.Shell.Editor.Runs.{}
use motor_test.Shell.Desk.{Desk, Key, edit, tab, up, down, press, press_all}
use motor_test.Shell.Desk.{key_bytes, key_bytes_all, CanPress, CanPressAll, Mirrors}
use motor_test.Shell.Desk.Edits.{Turns, edit-Turns, completed-Turns}
use motor_test.Shell.Desk.Arrows.{up-Turns, down-Turns}

module _ (commands : List FinshSyscall) (strings : All IsString (names_of commands))
    (short : All IsShort (names_of commands)) (s : FinshShell) (d : Desk) (m : Mirrors d s) where
  press-Turns :
      (k : Key) → CanPress k d → Turns commands s (key_bytes k) (press (names_of commands) k d)
  press-Turns (edit e) can = edit-Turns commands strings short s d m e (can.0) (can.1)
  press-Turns tab can =
      unfold press in completed-Turns commands strings short s d m (in_order d.line) refl
  press-Turns up can = up-Turns commands s d m
  press-Turns down can = down-Turns commands s d m

-- Any sequence of keys (printable characters while there is room for them, backspaces, tabs and the four
-- arrows) takes a shell in the state of a desk to one in the state of the desk after the same keys,
-- where the names of the commands are strings of at most 127 characters. No command is run.
pub press_all-Turns :
    (commands : List FinshSyscall) (s : FinshShell) (d : Desk) (ks : List Key)
    → All IsString (names_of commands)
    → All IsShort (names_of commands)
    → Mirrors d s
    → CanPressAll (names_of commands) ks d
    → Turns commands s (key_bytes_all ks) (press_all (names_of commands) ks d)
unfolding press_all
press_all-Turns commands s d [] strings short m can = record {
  to = s;
  turns = λ rest. refl;
  mirrors = m;
}
press_all-Turns commands s d (k ∷ ks) strings short m can =
    let now = press-Turns commands strings short s d m k (can.0) in
    let later =
      press_all-Turns commands now.to (press (names_of commands) k d) ks strings short now.mirrors
        (can.1) in
    record {
      to = later.to;
      turns = λ rest.
          ap (finsh_loop commands s) (append_assoc (key_bytes k) (key_bytes_all ks) rest)
          ∙ now.turns (key_bytes_all ks ++ rest)
          ∙ later.turns rest;
      mirrors = later.mirrors;
    }
