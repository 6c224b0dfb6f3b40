-- ===== src/Shell/Session.antt =====
-- The shell as a whole: lines are typed, edited and entered, and their commands run.
use motor_test.Base.{
  ℕ, suc, ◌-◌, ◌≡◌, refl, sym, ap, ap₂, ◌∙◌, arith, ◌==◌, leb, if_elim, if◌then◌else◌,
}
use motor_test.Base.{
  true, false, Bool, not, ◌||◌, List, [], ◌∷◌, ◌++◌, All, length, length-append, map, some, none,
}
use mathlib.Core.List.{append_assoc}
use motor_test.Base.Memory.{replicate, length-replicate}
use motor_test.Base.Memory.Laws.{length-map}
use motor_test.Shell.{FinshShell, Done}
use motor_test.Shell.Table.{FinshSyscall, names_of}
use motor_test.Shell.Pushed.{is_same, line_kept, history_pushed, shell_push_history-history_pushed}
use motor_test.Shell.Exec.{msh_exec}
use motor_test.Shell.Keys.{Ran, followed, finsh_key, finsh_loop}
use motor_test.Shell.Desk.{Desk, Key, padded, press_all, enter, key_bytes_all, CanPressAll, Mirrors}
use motor_test.Shell.Desk.Press.{press_all-Turns}
use motor_test.Shell.Desk.Push.{history_pushed-Recalls}
use motor_test.Shell.Safe.Run.{enter_key-line_entered}
use motor_test.Shell.Safe.Tab.{IsShort}
use motor_test.Shell.{wait_normal}
use motor_test.Shell.Editor.{text, in_order, Shows}
use motor_test.Shell.Editor.Moves.{length-rev_onto, rev_onto-append}
use motor_test.Shell.Editor.Runs.{followed_nothing}
use motor_test.Shell.Recall.{enter_byte}
use motor_test.Shell.Dispatch.{IsString, run_text, msh_exec-run_text}

-- The desk with the line that the keys leave.
abbrev pub typed : List FinshSyscall → List Key → Desk → Desk
typed commands ks d = press_all (names_of commands) ks d

-- Lines that can be typed one after the other.
abbrev pub AreTyped : List FinshSyscall → List (List Key) → Desk → Type 0
AreTyped commands [] d = Unit
AreTyped commands (ks ∷ lines) d =
    CanPressAll (names_of commands) ks d × AreTyped commands lines (enter (typed commands ks d))

abbrev pub typed_lines : List (List Key) → List ℕ
typed_lines [] = []
typed_lines (ks ∷ lines) = key_bytes_all ks ++ b'\n' ∷ typed_lines lines

-- The commands of the lines, in their order, up to the first that quits; whether one did; and the desk
-- afterwards.
pub record LinesRan : Type 0 where
  pub dones : List Done
  pub ended : Bool
  pub desk : Desk

abbrev pub with_others : Bool → Done → Desk → LinesRan → LinesRan
with_others quits done d rest =
    if quits
    then record { dones = done ∷ []; ended = true; desk = d }
    else record rest { dones = done ∷ rest.dones }

unfoldable pub run_lines : List FinshSyscall → List (List Key) → Desk → LinesRan
run_lines commands [] d = record { dones = []; ended = false; desk = d }
run_lines commands (ks ∷ lines) d =
    let p = typed commands ks d in
    let rest = run_lines commands lines (enter p) in
    let done = run_text commands (in_order p.line) in with_others done.quits done (enter p) rest

-- What becomes of the loop after lines that did `dones`.
abbrev pub after_lines : List Done → Bool → FinshShell → Ran → Ran
after_lines dones true s next = some (dones, s, true)
after_lines dones false s next = followed dones next

-- The history is no part of the line.
record SameLine (s u : FinshShell) : Type 0 where
  pub line : u.line ≡ s.line
  pub position : u.line_position ≡ s.line_position
  pub stat : u.stat ≡ s.stat

history_pushed-SameLine : (s : FinshShell) → SameLine s (history_pushed s)
unfolding history_pushed line_kept
history_pushed-SameLine s =
    let kept =
      if_elim (SameLine s) (s.line_position == 0) (λ empty. same)
        (λ full.
          if_elim (SameLine s) (leb 100 s.history_count)
            (λ e.
              if_elim (SameLine s) (not (is_same s 99))
                (λ e. record { line = refl; position = refl; stat = refl }) (λ e. same))
            (λ e.
              if_elim (SameLine s) ((s.history_count == 0) || not (is_same s (s.history_count - 1)))
                (λ e. record { line = refl; position = refl; stat = refl }) (λ e. same))) in
    record { line = kept.line; position = kept.position; stat = kept.stat }
  where
    same : SameLine s s
    same = record { line = refl; position = refl; stat = refl }

pub empty_line-Shows :
    (u : FinshShell)
    → u.line ≡ replicate 129 0
    → u.line_position ≡ 0
    → u.line_curpos ≡ 0
    → u.stat ≡ wait_normal
    → Shows (text [] []) u
empty_line-Shows u line position curpos normal = record {
  spare = 127;
  bytes = line;
  cursor = curpos;
  position = omega arith;
  room = omega arith;
  normal = normal;
}

recalls-hundred : (s : FinshShell) (d : Desk) → Mirrors d s → length s.cmd_history ≡ 100
recalls-hundred s d m = omega (
  arith,
  ap length m.recalls.entries,
  length-append (map padded d.past) (replicate (100 - length d.past) (replicate 128 0)),
  length-map padded d.past,
  length-replicate (100 - length d.past) (replicate {A = ℕ} 128 0),
  m.recalls.hundred,
)

-- Entering the line of a shell in the state of a desk.
entered :
    (commands : List FinshSyscall) (s : FinshShell) (d : Desk)
    → All IsString (names_of commands)
    → Mirrors d s
    → (u : FinshShell) × (finsh_key commands s b'\n'
        ≡ some (u, run_text commands (in_order d.line) ∷ []))
      × Mirrors (enter d) u
unfolding enter
entered commands s d strings m =
    let h = m.shows in
    let t = d.line in
    let xs = in_order t in
    let pushed = history_pushed s in
    let same = history_pushed-SameLine s in
    let line : pushed.line ≡ xs ++ replicate (suc (suc h.spare)) 0 =
      same.line ∙ h.bytes ∙ rev_onto-append t.before t.after (replicate (suc (suc h.spare)) 0) in
    let position : pushed.line_position ≡ length xs =
      same.position ∙ h.position ∙ sym (length-rev_onto t.before t.after) in
    let ran : msh_exec commands pushed.line pushed.line_position ≡ some (run_text commands xs) =
      ap₂ (msh_exec commands) line position
      ∙ msh_exec-run_text commands xs (replicate (suc h.spare) 0) strings m.string in
    let whole : length s.line ≡ 129 = omega (
      arith,
      h.room,
      same.line,
      ap length line,
      ap length same.line,
      length-append xs (replicate (suc (suc h.spare)) 0),
      length-replicate {A = ℕ} (suc (suc h.spare)) 0,
      length-rev_onto t.before t.after,
    ) in
    let stays =
      shell_push_history-history_pushed s whole (omega (arith, h.position, h.room))
        (recalls-hundred s d m) (omega (arith, m.recalls.count, m.recalls.hundred)) in
    let u : FinshShell = record pushed {
      line = replicate 129 0;
      line_position = 0;
      line_curpos = 0;
    } in
    let past = history_pushed-Recalls s d m in
    (
      u,
      enter_byte commands s h.normal
          ∙ enter_key-line_entered commands s pushed (run_text commands xs) stays ran,
      record {
        shows = empty_line-Shows u refl refl refl (same.stat ∙ h.normal);
        string = tt;
        recalls = record {
          entries = past.entries;
          count = past.count;
          at = past.at;
          hundred = past.hundred;
          inside = past.inside;
          texts = past.texts;
        };
      },
    )

-- The loop after a byte that ran one command.
after_one :
    (commands : List FinshSyscall) (s u : FinshShell) (done : Done) (ch : ℕ) (input : List ℕ)
    → finsh_key commands s ch ≡ some (u, done ∷ [])
    → finsh_loop commands s (ch ∷ input) ≡ (
        if done.quits
        then some (done ∷ [], u, true)
        else followed (done ∷ []) (finsh_loop commands u input))
unfolding finsh_loop
after_one commands s u done ch input e = rw e (
    ap
      (λ b.
        if b then some (done ∷ [], u, true) else followed (done ∷ []) (finsh_loop commands u input))
      (or_false done.quits))
  where
    or_false : (b : Bool) → (b || false) ≡ b
    or_false true = refl
    or_false false = refl

followed_twice :
    (done : Done) (dones : List Done) (r : Ran)
    → followed (done ∷ []) (followed dones r) ≡ followed (done ∷ dones) r
followed_twice done dones none = refl
followed_twice done dones (some (later, s, ended)) = refl

followed_after :
    (done : Done) (dones : List Done) (ended : Bool) (u : FinshShell) (r : Ran)
    → followed (done ∷ []) (after_lines dones ended u r) ≡ after_lines (done ∷ dones) ended u r
followed_after done dones true u r = refl
followed_after done dones false u r = followed_twice done dones r

-- The first line and the others, where its command quits and where it does not.
abbrev one_then : Bool → Done → FinshShell → Ran → Ran
one_then quits done u later =
    if quits then some (done ∷ [], u, true) else followed (done ∷ []) later

-- The loop over the lines, from a shell in the state of a desk.
abbrev pub RunsTo : FinshShell → List FinshSyscall → List ℕ → LinesRan → Type 0
RunsTo s commands input ran =
    (u : FinshShell) × ((rest : List ℕ)
      → finsh_loop commands s (input ++ rest)
        ≡ after_lines ran.dones ran.ended u (finsh_loop commands u rest))
    × Mirrors ran.desk u

-- A line that has been typed and entered, and the lines after it.
chosen :
    (commands : List FinshSyscall) (s u : FinshShell) (input others : List ℕ) (quits : Bool)
    (done : Done) (d : Desk) (rest : LinesRan)
    → ((more : List ℕ)
        → finsh_loop commands s (input ++ more)
          ≡ one_then quits done u (finsh_loop commands u (others ++ more)))
    → Mirrors d u
    → RunsTo u commands others rest
    → RunsTo s commands input (with_others quits done d rest)
chosen commands s u input others true done d rest first m later = (u, first, m)
chosen commands s u input others false done d rest first m later = (
  later.0,
  λ more.
      first more
      ∙ ap (followed (done ∷ [])) (later.1 more)
      ∙ followed_after done rest.dones rest.ended later.0 (finsh_loop commands later.0 more),
  later.2,
)

pub finsh_loop-run_lines :
    (commands : List FinshSyscall) (s : FinshShell) (lines : List (List Key)) (d : Desk)
    → All IsString (names_of commands)
    → All IsShort (names_of commands)
    → Mirrors d s
    → AreTyped commands lines d
    → RunsTo s commands (typed_lines lines) (run_lines commands lines d)
unfolding run_lines
finsh_loop-run_lines commands s [] d strings short m t =
    (s, λ rest. sym (followed_nothing (finsh_loop commands s rest)), m)
finsh_loop-run_lines commands s (ks ∷ lines) d strings short m t =
    let turns = press_all-Turns commands s d ks strings short m (t.0) in
    let p = typed commands ks d in
    let now = entered commands turns.to p strings turns.mirrors in
    let later = finsh_loop-run_lines commands now.0 lines (enter p) strings short (now.2) (t.1) in
    let done = run_text commands (in_order p.line) in
    chosen commands s now.0 (typed_lines (ks ∷ lines)) (typed_lines lines) done.quits done (enter p)
      (run_lines commands lines (enter p))
      (λ rest.
        ap (finsh_loop commands s)
          (append_assoc (key_bytes_all ks) (b'\n' ∷ typed_lines lines) rest)
        ∙ turns.turns (b'\n' ∷ (typed_lines lines ++ rest))
        ∙ after_one commands turns.to now.0 done b'\n' (typed_lines lines ++ rest) (now.1))
      (now.2) later
