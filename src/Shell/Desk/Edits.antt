-- ===== src/Shell/Desk/Edits.antt =====
-- What an edit and a tab do on the shell they do on the desk.
use motor_test.Base.{ℕ, suc, ◌+◌, ◌≡◌, refl, sym, ap, ◌∙◌, arith, ◌==◌}
use motor_test.Base.{true}
use motor_test.Base.{List, [], ◌∷◌, ◌++◌, All, length, some}
use mathlib.Core.Path.{subst}
use motor_test.Base.Memory.{replicate, strlen}
use motor_test.Shell.{FinshShell}
use motor_test.Base.Memory.Laws.{strlen-append}
use motor_test.Shell.Names.{head_or}
use motor_test.Shell.Complete.{msh_auto_complete}
use motor_test.Shell.Table.{FinshSyscall, names_of}
use motor_test.Shell.Keys.{quietly, tab_key, plain_key, by_stat, finsh_key, finsh_loop}
use motor_test.Shell.Dispatch.{IsString}
use motor_test.Shell.Safe.Tab.{IsShort}
use motor_test.Shell.Editor.{Text, text, Edit, IsKey, keys, puts, in_order, Shows, Keeps}
use motor_test.Shell.Editor.Moves.{length-rev_onto, rev_onto-append}
use motor_test.Shell.Editor.Runs.{Fits, finsh_loop_quiet, perform-Leads}
use motor_test.Shell.Completion.{completion}
use motor_test.Shell.Completion.Key.{completion-IsGood, tab_key-completion}
use motor_test.Shell.Desk.{Desk, edit, at_its_end, completed, press}
use motor_test.Shell.Desk.{Recalls, Mirrors}
use motor_test.Shell.Desk.Strings.{perform-IsString, in_order-end}

-- The input takes the shell to one in the state of the desk, whatever comes after it.
pub record Turns (commands : List FinshSyscall) (s : FinshShell) (input : List ℕ) (d : Desk)
    : Type 0 where
  pub to : FinshShell
  pub turns : (rest : List ℕ) → finsh_loop commands s (input ++ rest) ≡ finsh_loop commands to rest
  pub mirrors : Mirrors d to

pub Keeps-Recalls :
    (past : List (List ℕ)) (current : ℕ) (s u : FinshShell)
    → Recalls past current s
    → Keeps s u
    → Recalls past current u
Keeps-Recalls past current s u h k = record {
  entries = k.entries ∙ h.entries;
  count = k.count ∙ h.count;
  at = k.current ∙ h.at;
  hundred = h.hundred;
  inside = h.inside;
  texts = h.texts;
}

tab_on_zero :
    (commands : List FinshSyscall) (s : FinshShell) (z : List ℕ)
    → s.line ≡ 0 ∷ z
    → tab_key commands s ≡ some (record s { line_position = 0; line_curpos = 0 })
unfolding tab_key msh_auto_complete
tab_on_zero commands s z line =
    let first : (head_or s.line == 0) ≡ true = ap (λ xs. head_or xs == 0) line in
    let measured : strlen s.line ≡ some 0 = ap strlen line ∙ strlen-append [] z tt in
    rw (first, measured) refl

module _ (commands : List FinshSyscall) (strings : All IsString (names_of commands))
    (short : All IsShort (names_of commands)) (s : FinshShell) (d : Desk) (m : Mirrors d s) where
  pub edit-Turns :
      (e : Edit)
      → IsKey e
      → Fits d.line (puts (e ∷ []))
      → Turns commands s (keys e) (press (names_of commands) (edit e) d)
  unfolding press
  edit-Turns e k f =
      let lead = perform-Leads commands s d.line e k m.shows f in
      record {
        to = lead.to;
        turns = lead.leads;
        mirrors = record {
          shows = lead.shows;
          string = perform-IsString e d.line k m.string;
          recalls = Keeps-Recalls d.past d.current s lead.to m.recalls lead.keeps;
        };
      }

  tab_byte : finsh_key commands s b'\t' ≡ quietly (tab_key commands s)
  unfolding finsh_key by_stat plain_key
  tab_byte = rw (m.shows.normal) refl

  -- A tab that leaves the shell in `u`.
  tab-Turns :
      (u : FinshShell) (t : Text)
      → tab_key commands s ≡ some u
      → Shows t u
      → IsString (in_order t)
      → Keeps s u
      → Turns commands s (b'\t' ∷ []) (record d { line = t })
  tab-Turns u t e shown string kept = record {
    to = u;
    turns = λ rest. finsh_loop_quiet commands s u b'\t' rest (tab_byte ∙ ap quietly e);
    mirrors = record {
      shows = shown;
      string = string;
      recalls = Keeps-Recalls d.past d.current s u m.recalls kept;
    };
  }

  pub completed-Turns :
      (xs : List ℕ)
      → in_order d.line ≡ xs
      → Turns commands s (b'\t' ∷ []) (record d { line = completed (names_of commands) xs })
  completed-Turns [] e =
      let u : FinshShell = record s { line_position = 0; line_curpos = 0 } in
      let line : s.line ≡ 0 ∷ replicate (suc m.shows.spare) 0 =
        m.shows.bytes
        ∙ rev_onto-append d.line.before d.line.after (replicate (suc (suc m.shows.spare)) 0)
        ∙ ap (λ xs. xs ++ replicate (suc (suc m.shows.spare)) 0) e in
      let none_there : length d.line.before + length d.line.after ≡ 0 =
        sym (length-rev_onto d.line.before d.line.after) ∙ ap length e in
      tab-Turns u (text [] []) (tab_on_zero commands s _ line)
        (record {
          spare = m.shows.spare;
          bytes = line;
          cursor = refl;
          position = omega arith;
          room = omega (arith, m.shows.room, none_there);
          normal = m.shows.normal;
        })
        tt (record { entries = refl; count = refl; current = refl })
  completed-Turns (c ∷ cs) e =
      let r = m.shows.room in
      let names = names_of commands in
      let string : IsString (c ∷ cs) = subst IsString e m.string in
      let sized : length (c ∷ cs) ≡ length d.line.before + length d.line.after =
        ap length (sym e) ∙ length-rev_onto d.line.before d.line.after in
      let good =
        completion-IsGood (c ∷ cs) names (omega arith) (omega arith) string strings short in
      let done =
        tab_key-completion commands s d.line m.shows (omega (arith, ap length e)) m.string strings
          short in
      tab-Turns done.0 (at_its_end (completion (c ∷ cs) names)) (done.1)
        (subst (λ xs. Shows (at_its_end (completion xs names)) done.0) e (done.2))
        (subst IsString (sym (in_order-end (completion (c ∷ cs) names))) good.string) (done.3)
