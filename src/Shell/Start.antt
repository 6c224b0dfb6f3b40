-- ===== src/Shell/Start.antt =====
-- `finsh` from its start: lines that are typed run their commands, until one quits.
use motor_test.Base.{arith, ℕ, ◌≡◌, refl, sym, ap, ◌∙◌, true, if_elim}
use motor_test.Base.{List, [], ◌∷◌, ◌++◌, All, some}
use motor_test.Shell.{FinshShell, Done, cleared_shell}
use motor_test.Shell.Table.{FinshSyscall, names_of}
use motor_test.Shell.Keys.{finsh_loop, finsh}
use motor_test.Shell.Editor.{text, Shows, in_order}
use motor_test.Shell.Dispatch.{IsString, run_text}
use motor_test.Shell.Session.{
  typed, AreTyped, typed_lines, LinesRan, run_lines, after_lines, finsh_loop-run_lines,
}
use motor_test.Shell.Desk.{Desk, Key, enter, Mirrors}
use motor_test.Shell.Safe.Tab.{IsShort}

pub cleared_shell-Shows : Shows (text [] []) cleared_shell
cleared_shell-Shows = record {
  spare = 127;
  bytes = refl;
  cursor = refl;
  position = refl;
  room = refl;
  normal = refl;
}

-- An empty line, and nothing entered yet.
abbrev pub fresh : Desk
fresh = record { line = text [] []; past = []; current = 0 }

pub cleared_shell-Mirrors : Mirrors fresh cleared_shell
cleared_shell-Mirrors = record {
  shows = cleared_shell-Shows;
  string = tt;
  recalls = record {
    entries = refl;
    count = refl;
    at = refl;
    hundred = omega arith;
    inside = omega arith;
    texts = tt;
  };
}

-- From its start, `finsh` runs on typed lines what their texts say, one after the other, and ends
-- behind the first whose command quits; otherwise it goes on, in the state that the keys have led to,
-- on whatever input follows. Each line is typed by keys that put in printable characters while fewer
-- than 127 are there, erase, move the cursor, complete, and call up earlier lines. The names in the table are strings of at most 127 characters.
pub finsh-run_lines :
    (commands : List FinshSyscall) (lines : List (List Key))
    → All IsString (names_of commands)
    → All IsShort (names_of commands)
    → AreTyped commands lines fresh
    → let ran = run_lines commands lines fresh in
      (u : FinshShell) × ((rest : List ℕ)
        → finsh commands (typed_lines lines ++ rest)
          ≡ after_lines ran.dones ran.ended u (finsh_loop commands u rest))
      × Mirrors ran.desk u
unfolding finsh
finsh-run_lines commands lines strings short t =
    finsh_loop-run_lines commands cleared_shell lines fresh strings short cleared_shell-Mirrors t

-- The desk after some lines, none of which quits.
abbrev pub desk_after : List FinshSyscall → List (List Key) → Desk → Desk
desk_after commands [] d = d
desk_after commands (ks ∷ lines) d = desk_after commands lines (enter (typed commands ks d))

-- What the command of a line does, on that desk.
abbrev pub line_done : List FinshSyscall → List Key → Desk → Done
line_done commands ks d = run_text commands (in_order (typed commands ks d).line)

-- A line whose command quits, behind any others, ends what the lines do.
run_lines-quits :
    (commands : List FinshSyscall) (lines : List (List Key)) (ks : List Key) (d : Desk)
    → (line_done commands ks (desk_after commands lines d)).quits ≡ true
    → (run_lines commands (lines ++ ks ∷ []) d).ended ≡ true
unfolding run_lines
run_lines-quits commands [] ks d q =
    if_elim (λ (r : LinesRan). r.ended ≡ true) (line_done commands ks d).quits (λ ends. refl)
      (λ stays. sym stays ∙ q)
run_lines-quits commands (line ∷ lines) ks d q =
    if_elim (λ (r : LinesRan). r.ended ≡ true) (line_done commands line d).quits (λ now. refl)
      (λ later. run_lines-quits commands lines ks (enter (typed commands line d)) q)

-- A typed line whose command sets `quit_flag` ends the loop, whatever lines were typed before it and
-- whatever input follows: `finsh` returns, and what it has done does not depend on that input. The lines
-- are typed by keys that put in printable characters while fewer than 127 are there, erase, move the
-- cursor, complete, and call up earlier lines; the names in the table
-- are strings of at most 127 characters.
pub finsh-quits :
    (commands : List FinshSyscall) (lines : List (List Key)) (ks : List Key)
    → All IsString (names_of commands)
    → All IsShort (names_of commands)
    → AreTyped commands (lines ++ ks ∷ []) fresh
    → (line_done commands ks (desk_after commands lines fresh)).quits ≡ true
    → (dones : List Done) × (u : FinshShell) × ((rest : List ℕ)
        → finsh commands (typed_lines (lines ++ ks ∷ []) ++ rest) ≡ some (dones, u, true))
finsh-quits commands lines ks strings short t q =
    let all = finsh-run_lines commands (lines ++ ks ∷ []) strings short t in
    let ran = run_lines commands (lines ++ ks ∷ []) fresh in
    let ends = run_lines-quits commands lines ks fresh q in
    (
      ran.dones,
      all.0,
      λ rest.
          all.1 rest
          ∙ ap (λ ended. after_lines ran.dones ended all.0 (finsh_loop commands all.0 rest)) ends,
    )
