-- ===== src/Shell/Overrun.antt =====
-- A full line, a tab, and the memory behind the line.
use motor_test.Base.{ℕ, zero, suc, ◌≤◌, ◌<◌, ◌≡◌, ◌≢◌, refl, sym, ap, ◌∙◌, arith, leb, ◌==◌, lt→leb}
use motor_test.Base.{ne→==, true, false, Bool-cases, inl, inr}
use motor_test.Base.{List, [], ◌∷◌, ◌++◌, All, All-append, length, length-append, set, some, none}
use mathlib.Core.List.{append_assoc}
use motor_test.Base.Memory.{replicate, memmove, store_at, strlen, length-set}
use motor_test.Base.Memory.Laws.{strlen-append}
use motor_test.Shell.{FinshShell, wait_normal, cleared_shell}
use motor_test.Shell.Names.{strncmp_equal}
use motor_test.Shell.Table.{FinshSyscall, names_of}
use motor_test.Shell.Complete.{find_names, nothing_found, write_name, msh_auto_complete}
use motor_test.Shell.Keys.{
  quietly, put_in, close_gap, shortened, next16, insert_key, backspace_key, tab_key,
}
use motor_test.Shell.Keys.{plain_key, by_stat, finsh_key, finsh_loop, finsh}
use motor_test.Shell.Editor.{text, rev_onto, Shows}
use motor_test.Shell.Editor.Typing.{
  IsPrintable, typing, keys_all-typing, puts-typing, typing-IsKey, perform_all-typing,
}
use motor_test.Shell.Editor.Moves.{rev_onto_twice, length-rev_onto}
use motor_test.Shell.Editor.Refine.{put_in_at}
use motor_test.Shell.Editor.Runs.{Leads, perform_all-Leads, finsh_loop_quiet, printable, erase_key}
use motor_test.Shell.Safe.Tab.{IsShort}
use motor_test.Shell.Start.{cleared_shell-Shows}

fails :
    (commands : List FinshSyscall) (s : FinshShell) (ch : ℕ) (rest : List ℕ)
    → finsh_key commands s ch ≡ none
    → finsh_loop commands s (ch ∷ rest) ≡ none
unfolding finsh_loop
fails commands s ch rest e = rw e refl

module _ (commands : List FinshSyscall) (s : FinshShell) (normal : s.stat ≡ wait_normal)
    (line : List ℕ) (sized : length line ≡ 129) where
  -- The cursor behind all 128 bytes of a full line, as a tab leaves it.
  abbrev full : FinshShell
  full = record s { line = line; line_position = 128; line_curpos = 128 }

  -- Only the position goes back to the start.
  abbrev apart : ℕ → FinshShell
  apart c = record s { line = set line 0 c; line_position = 1; line_curpos = 129 }

  abbrev farther : ℕ → FinshShell
  farther c = record s { line = set (set line 0 c) 0 0; line_position = 0; line_curpos = 128 }

  apart_lem : (c : ℕ) → insert_key full c ≡ some (apart c)
  unfolding insert_key put_in store_at
  apart_lem c = rw (sized) refl

  farther_lem : (c : ℕ) → backspace_key (apart c) ≡ some (farther c)
  unfolding backspace_key close_gap store_at
  farther_lem c = rw (length-set line 0 c, sized) refl

  outside_lem : (c : ℕ) → backspace_key (farther c) ≡ none
  unfolding backspace_key close_gap memmove
  outside_lem c = rw (length-set (set line 0 c) 0 0, length-set line 0 c, sized) refl

  overruns :
      (c : ℕ) (rest : List ℕ)
      → IsPrintable c
      → finsh_loop commands full (c ∷ 127 ∷ 127 ∷ rest) ≡ none
  overruns c rest p =
      finsh_loop_quiet commands full (apart c) c (127 ∷ 127 ∷ rest)
        (printable commands full c normal (p.0) (p.1) ∙ ap quietly (apart_lem c))
      ∙ finsh_loop_quiet commands (apart c) (farther c) 127 (127 ∷ rest)
          (erase_key commands (apart c) normal ∙ ap quietly (farther_lem c))
      ∙ fails commands (farther c) 127 rest
          (erase_key commands (farther c) normal ∙ ap quietly (outside_lem c))

-- A name of fewer than 128 bytes does not begin with 128 that are not 0.
not_a_prefix :
    (n : ℕ) (line name : List ℕ)
    → length name < n
    → n ≤ length line
    → All (λ c. c ≢ 0) line
    → (rest : List ℕ) → strncmp_equal n (line ++ rest) name ≡ false
unfolding strncmp_equal
not_a_prefix zero line name l m h rest = absurd (omega arith)
not_a_prefix (suc n) [] name l m h rest = absurd (omega arith)
not_a_prefix (suc n) (c ∷ line) [] l m h rest = rw (ne→== c 0 (h.0)) refl
not_a_prefix (suc n) (c ∷ line) (d ∷ name) l m h rest = elim (Bool-cases (c == d)) [
  | inl p ↦
      rw (p, ne→== c 0 (h.0)) (not_a_prefix n line name (omega arith) (omega arith) (h.1) rest)
  | inr p ↦ rw p refl
]

none_found :
    (line rest : List ℕ) (names : List (List ℕ))
    → length line ≡ 128
    → All (λ c. c ≢ 0) line
    → All IsShort names
    → find_names (line ++ rest) 128 names nothing_found ≡ nothing_found
unfolding find_names
none_found line rest [] e h short = refl
none_found line rest (name ∷ names) e h short =
    rw (not_a_prefix 128 line name (short.0) (omega arith) h rest)
      (none_found line rest names e h (short.1))

-- A tab on a line whose 128 bytes are still there takes them all for its text.
module _ (commands : List FinshSyscall) (s : FinshShell) (normal : s.stat ≡ wait_normal) (c : ℕ)
    (cs : List ℕ) (sized : length (c ∷ cs) ≡ 128) (nonzero : All (λ d. d ≢ 0) (c ∷ cs))
    (short : All IsShort (names_of commands)) where
  abbrev given_up : FinshShell
  given_up = record s { line = c ∷ cs ++ 0 ∷ []; line_position = 0; line_curpos = 0 }

  measured : strlen (c ∷ cs ++ 0 ∷ []) ≡ some 128
  measured = strlen-append (c ∷ cs) [] nonzero ∙ ap some sized

  not_completed : msh_auto_complete (names_of commands) (c ∷ cs ++ 0 ∷ []) ≡ some (c ∷ cs ++ 0 ∷ [])
  unfolding msh_auto_complete write_name
  not_completed =
      rw
        (
          ne→== c 0 (nonzero.0),
          measured,
          none_found (c ∷ cs) (0 ∷ []) (names_of commands) sized nonzero short,
        )
        refl

  line_sized : length (c ∷ cs ++ 0 ∷ []) ≡ 129
  line_sized = omega (arith, sized, length-append cs (0 ∷ []))

  tab_lem :
      finsh_key commands given_up b'\t'
      ≡ some (full commands s normal (c ∷ cs ++ 0 ∷ []) line_sized, [])
  unfolding finsh_key by_stat plain_key tab_key
  tab_lem = rw (normal, not_completed, measured) refl

  tab_overruns :
      (d : ℕ) (rest : List ℕ)
      → IsPrintable d
      → finsh_loop commands given_up (b'\t' ∷ d ∷ 127 ∷ 127 ∷ rest) ≡ none
  tab_overruns d rest p =
      finsh_loop_quiet commands given_up _ b'\t' (d ∷ 127 ∷ 127 ∷ rest) tab_lem
      ∙ overruns commands s normal (c ∷ cs ++ 0 ∷ []) line_sized d rest p

printable-NonZero : (xs : List ℕ) → All IsPrintable xs → All (λ c. c ≢ 0) xs
printable-NonZero [] h = tt
printable-NonZero (x ∷ xs) h = let low = h.0.0 in (λ e. omega arith, printable-NonZero xs (h.1))

-- A shell that has been given all but one of the bytes of a line.
module _ (commands : List FinshSyscall) (s : FinshShell) (xs : List ℕ) (y : ℕ)
    (sized : length xs ≡ 127) (h : Shows (text (rev_onto xs []) []) s) where
  abbrev nearly_full : FinshShell
  nearly_full = record s { line = xs ++ y ∷ 0 ∷ []; line_position = 0; line_curpos = 0 }

  last_byte : insert_key s y ≡ some nearly_full
  unfolding insert_key
  last_byte =
      let count : length (rev_onto xs []) ≡ 127 = omega (arith, length-rev_onto xs [], sized) in
      let at : s.line_position ≡ 127 = omega (arith, h.position, count) in
      let none_spare : h.spare ≡ 0 = omega (arith, h.room, count) in
      let line : s.line ≡ xs ++ 0 ∷ 0 ∷ [] =
        h.bytes
        ∙ ap (λ n. rev_onto (rev_onto xs []) (0 ∷ 0 ∷ replicate n 0)) none_spare
        ∙ rev_onto_twice xs [] (0 ∷ 0 ∷ []) in
      let placed =
        put_in_at s xs [] (0 ∷ []) y line (h.cursor ∙ count ∙ sym sized)
          (omega (arith, at, sized)) in
      let same : shortened s ≡ s = rw (lt→leb 128 s.line_position (omega (arith, at))) refl in
      let last : leb 128 (next16 s.line_position) ≡ true = rw at refl in
      rw (same, placed, last) refl

typed_text :
    (commands : List FinshSyscall) (xs : List ℕ)
    → length xs ≡ 127
    → All IsPrintable xs
    → Leads commands cleared_shell xs (text (rev_onto xs []) [])
typed_text commands xs e p =
    let leads =
      perform_all-Leads commands cleared_shell (text [] []) (typing xs) (typing-IsKey xs p)
        cleared_shell-Shows (omega (arith, puts-typing xs, e)) in
    rw (keys_all-typing xs, perform_all-typing xs [] []) at leads

-- After 128 printable characters, a tab, one more and two backspaces, the shell moves bytes outside its
-- line: from its start on, this input leads to an access outside the buffer, whatever is typed after
-- it. (No name in the table has 128 bytes or more.) The line was given up at its last byte, but the tab
-- takes its bytes for the text again, and the next byte moves the position without the cursor.
pub finsh-overruns :
    (commands : List FinshSyscall) (xs : List ℕ) (y d : ℕ) (rest : List ℕ)
    → All IsShort (names_of commands)
    → length xs ≡ 127
    → All IsPrintable xs
    → IsPrintable y
    → IsPrintable d
    → finsh commands (xs ++ y ∷ b'\t' ∷ d ∷ 127 ∷ 127 ∷ rest) ≡ none
unfolding finsh
finsh-overruns commands [] y d rest short e p q r = absurd (omega arith)
finsh-overruns commands (c ∷ cs) y d rest short e p q r =
    let xs = c ∷ cs in
    let leads = typed_text commands xs e p in
    let s = leads.to in
    let sized : length (c ∷ (cs ++ y ∷ [])) ≡ 128 = omega (arith, e, length-append cs (y ∷ [])) in
    let nonzero =
      printable-NonZero (c ∷ (cs ++ y ∷ [])) (All-append IsPrintable xs (y ∷ []) p (q, tt)) in
    let same : nearly_full commands s xs y e leads.shows
        ≡ record s { line = c ∷ (cs ++ y ∷ []) ++ 0 ∷ []; line_position = 0; line_curpos = 0 } =
      ap (λ l. record s { line = l; line_position = 0; line_curpos = 0 })
        (sym (append_assoc xs (y ∷ []) (0 ∷ []))) in
    leads.leads (y ∷ b'\t' ∷ d ∷ 127 ∷ 127 ∷ rest)
    ∙ finsh_loop_quiet commands s _ y (b'\t' ∷ d ∷ 127 ∷ 127 ∷ rest) (
        printable commands s y leads.shows.normal (q.0) (q.1)
        ∙ ap quietly (last_byte commands s xs y e leads.shows ∙ ap some same))
    ∙ tab_overruns commands s leads.shows.normal c (cs ++ y ∷ []) sized nonzero short d rest r
