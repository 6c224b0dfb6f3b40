-- ===== src/Shell/Desk/Arrows.antt =====
-- What the keys up and down do on the shell they do on the desk.
use motor_test.Base.{ℕ, ◌+◌, ◌-◌, ◌<◌, ◌≡◌, refl, sym, ap, ap₂, ◌∙◌, arith, ltb, ◌==◌}
use motor_test.Base.{Bool-cases, inl, inr, ltb→lt, ==_false}
use motor_test.Base.{List, [], ◌∷◌, length, get_or, Option, some}
use mathlib.Core.Path.{subst}
use motor_test.Shell.{FinshShell}
use motor_test.Shell.Table.{FinshSyscall, names_of}
use motor_test.Shell.History.{next16, prev16, recall, up_key, down_key}
use motor_test.Shell.Keys.{quietly, finsh_key}
use motor_test.Shell.Dispatch.{IsString}
use motor_test.Shell.Editor.{}
use motor_test.Shell.Editor.Behind.{behind_text, behind_text-Shows}
use motor_test.Shell.Editor.Runs.{at_normal, bracketed, at_normal-Shows}
use motor_test.Shell.Editor.Runs.{arrow_loop, up_arrow, down_arrow}
use motor_test.Shell.Desk.{Desk, up, down, recalled, press}
use motor_test.Shell.Desk.{key_bytes, Mirrors}
use motor_test.Shell.Desk.Past.{entry_at, recall_lem}
use motor_test.Shell.Desk.Strings.{in_order-end}
use motor_test.Shell.Desk.Edits.{Turns}

module _ (commands : List FinshSyscall) (s : FinshShell) (d : Desk) (m : Mirrors d s) where
  -- The entry at `i` becomes the line.
  recalled-Mirrors :
      (i : ℕ)
      → i < length d.past
      → let u : FinshShell = record (at_normal commands s) { current_history = i } in
        let xs = get_or d.past i [] in
        (recall u ≡ some (behind_text u xs)) × Mirrors (recalled d i) (behind_text u xs)
  recalled-Mirrors i l =
      let u : FinshShell = record (at_normal commands s) { current_history = i } in
      let xs = get_or d.past i [] in
      let entry = entry_at d.past d.current s i m.recalls l in
      (
        recall_lem s d.line u xs m.shows refl (entry.0) (entry.1),
        record {
          shows = behind_text-Shows u xs refl (entry.1.1);
          string = subst IsString (sym (in_order-end xs)) (entry.1.0);
          recalls = record {
            entries = m.recalls.entries;
            count = m.recalls.count;
            at = refl;
            hundred = m.recalls.hundred;
            inside = omega arith;
            texts = m.recalls.texts;
          };
        },
      )

  -- An arrow key that leaves the shell in `u`.
  arrow-Turns :
      (ch : ℕ) (o : Option FinshShell) (u : FinshShell) (e : Desk)
      → finsh_key commands (bracketed commands s) ch ≡ quietly o
      → o ≡ some u
      → Mirrors e u
      → Turns commands s (0x1B ∷ 0x5B ∷ ch ∷ []) e
  arrow-Turns ch o u e byte done mirrored = record {
    to = u;
    turns = λ rest. arrow_loop commands s ch u rest (byte ∙ ap quietly done);
    mirrors = mirrored;
  }

  at_normal-Mirrors : Mirrors d (at_normal commands s)
  at_normal-Mirrors = record {
    shows = at_normal-Shows d.line s m.shows;
    string = m.string;
    recalls = record {
      entries = m.recalls.entries;
      count = m.recalls.count;
      at = m.recalls.at;
      hundred = m.recalls.hundred;
      inside = m.recalls.inside;
      texts = m.recalls.texts;
    };
  }

  -- The entry at an index that the shell has computed.
  recalled_at :
      (n i : ℕ)
      → n ≡ i
      → i < length d.past
      → recall (record (at_normal commands s) { current_history = n })
        ≡ some (
            behind_text
              (record (at_normal commands s) { current_history = i })
              (get_or d.past i []))
  recalled_at n i e l =
      ap (λ k. recall (record (at_normal commands s) { current_history = k })) e
      ∙ (recalled-Mirrors i l).0

  pub up-Turns : Turns commands s (key_bytes up) (press (names_of commands) up d)
  unfolding press up_key
  up-Turns = elim (Bool-cases (d.current == 0)) [
    | inl p ↦ rw p (
        arrow-Turns 0x41 _ (at_normal commands s) d (up_arrow commands s)
          (rw (m.recalls.at, p) refl) at_normal-Mirrors)
    | inr p ↦
        let n = ==_false d.current 0 p in
        let before : prev16 s.current_history ≡ d.current - 1 =
          omega (arith, m.recalls.at, m.recalls.inside, m.recalls.hundred) in
        let back = recalled-Mirrors (d.current - 1) (omega (arith, m.recalls.inside)) in
        rw p (
          arrow-Turns 0x41 _ _ (recalled d (d.current - 1)) (up_arrow commands s)
            (rw (ap (λ n. n == 0) m.recalls.at ∙ p)
              (recalled_at _ _ before (omega (arith, m.recalls.inside))))
            (back.1))
  ]

  pub down-Turns : Turns commands s (key_bytes down) (press (names_of commands) down d)
  unfolding press down_key
  down-Turns =
      let next = ap₂ (λ i n. ltb (i + 1) n) m.recalls.at m.recalls.count in
      let empty = ap (λ n. n == 0) m.recalls.count in
      elim (Bool-cases (ltb (d.current + 1) (length d.past))) [
        | inl p ↦
            let l = ltb→lt _ _ p in
            let after : next16 s.current_history ≡ d.current + 1 =
              omega (arith, m.recalls.at, m.recalls.hundred) in
            rw p (
              arrow-Turns 0x42 _ _ (recalled d (d.current + 1)) (down_arrow commands s)
                (rw (next ∙ p) (recalled_at _ _ after l)) ((recalled-Mirrors (d.current + 1) l).1))
        | inr p ↦ elim (Bool-cases (length d.past == 0)) [
          | inl q ↦
              rw (p, q)
                (arrow-Turns 0x42 _ (at_normal commands s) d (down_arrow commands s)
                  (rw (next ∙ p, empty ∙ q) refl) at_normal-Mirrors)
          | inr q ↦
              let n = ==_false (length d.past) 0 q in
              let l : length d.past - 1 < length d.past = omega arith in
              let last : prev16 s.history_count ≡ length d.past - 1 =
                omega (arith, m.recalls.count, m.recalls.hundred) in
              rw (p, q)
                (arrow-Turns 0x42 _ _ (recalled d (length d.past - 1)) (down_arrow commands s)
                  (rw (next ∙ p, empty ∙ q) (recalled_at _ _ last l))
                  ((recalled-Mirrors (length d.past - 1) l).1))
        ]
      ]
