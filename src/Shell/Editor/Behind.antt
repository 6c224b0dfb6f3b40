-- ===== src/Shell/Editor/Behind.antt =====
-- A line that holds a text with the cursor behind it.
use motor_test.Base.{ℕ, suc, ◌-◌, ◌≤◌, ◌≡◌, sym, arith, List, [], ◌++◌, length}
use motor_test.Base.Memory.{replicate}
use motor_test.Shell.{FinshShell, wait_normal}
use motor_test.Shell.Editor.{text, Shows, rev_onto}
use motor_test.Shell.Editor.Moves.{rev_onto_twice, length-rev_onto}

abbrev pub behind_text : FinshShell → List ℕ → FinshShell
behind_text s w = record s {
  line = w ++ replicate (suc (suc (127 - length w))) 0;
  line_position = length w;
  line_curpos = length w;
}

pub behind_text-Shows :
    (s : FinshShell) (w : List ℕ)
    → s.stat ≡ wait_normal
    → length w ≤ 127
    → Shows (text (rev_onto w []) []) (behind_text s w)
behind_text-Shows s w normal short =
    let counted : length (rev_onto w []) ≡ length w = omega (arith, length-rev_onto w []) in
    record {
      spare = 127 - length w;
      bytes = sym (rev_onto_twice w [] (replicate (suc (suc (127 - length w))) 0));
      cursor = sym counted;
      position = omega (arith, counted);
      room = omega (arith, counted);
      normal = normal;
    }
