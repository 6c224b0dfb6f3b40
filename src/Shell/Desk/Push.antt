-- ===== src/Shell/Desk/Push.antt =====
-- A line that is entered goes into the history as its text goes into the texts of the desk.
use motor_test.Base.{
  ℕ, suc, ◌+◌, ◌-◌, ◌≤◌, ◌<◌, ◌≡◌, ◌≢◌, refl, sym, ap, ap₂, ◌∙◌, arith, leb, ◌==◌, not, ◌||◌,
}
use motor_test.Base.{
  Bool-cases, inl, inr, leb→le, leb→gt, ==_false, ne→==, eq→==, true, false, if_elim, if◌then◌else◌,
}
use motor_test.Base.{List, [], ◌∷◌, ◌++◌, All, All-snoc, map, length, length-append, get_or, set}
use mathlib.Core.Path.{subst}
use mathlib.Core.List.{append_assoc, append-nil}
use motor_test.Base.Memory.{drop, replicate, length-drop, set-append}
use motor_test.Base.Memory.Laws.{length-map, All-drop}
use motor_test.Shell.{FinshShell}
use motor_test.Shell.Names.{memcmp_equal}
use motor_test.Shell.Pushed.{line_entry, is_same, line_kept, history_pushed}
use motor_test.Shell.Dispatch.{IsString}
use motor_test.Shell.Editor.{in_order}
use motor_test.Shell.Editor.Moves.{length-rev_onto, rev_onto-append}
use motor_test.Shell.Recall.{line_starts, line_entry_lem}
use motor_test.Shell.Desk.{Desk, padded, IsLineText, Recalls, Mirrors, remember, kept, is_last}
use motor_test.Shell.Desk.Past.{entry_at}

memcmp_equal_self : (xs : List ℕ) → memcmp_equal xs xs ≡ true
unfolding memcmp_equal
memcmp_equal_self [] = refl
memcmp_equal_self (x ∷ xs) = rw (eq→== x x refl) (memcmp_equal_self xs)

-- Zeros behind two texts make no difference to their comparison.
memcmp_equal_padded :
    (n : ℕ) (xs ys : List ℕ)
    → IsString xs
    → IsString ys
    → length xs ≤ n
    → length ys ≤ n
    → memcmp_equal (xs ++ replicate (n - length xs) 0) (ys ++ replicate (n - length ys) 0)
      ≡ memcmp_equal xs ys
unfolding memcmp_equal
memcmp_equal_padded n [] [] h g k l = memcmp_equal_self (replicate (n - 0) 0)
memcmp_equal_padded n [] (c ∷ cs) h g k l =
    let e : n - 0 ≡ suc (n - 1) = omega arith in rw (e, ne→== 0 c (λ z. g.0 (sym z))) refl
memcmp_equal_padded n (c ∷ cs) [] h g k l =
    let e : n - 0 ≡ suc (n - 1) = omega arith in rw (e, ne→== c 0 (h.0)) refl
memcmp_equal_padded n (c ∷ cs) (d ∷ ds) h g k l =
    let e : n - suc (length cs) ≡ (n - 1) - length cs = omega arith in
    let f : n - suc (length ds) ≡ (n - 1) - length ds = omega arith in
    elim (Bool-cases (c == d)) [
      | inl p ↦
          rw (e, f, p) (memcmp_equal_padded (n - 1) cs ds (h.1) (g.1) (omega arith) (omega arith))
      | inr p ↦ rw p refl
    ]

map-append : (xs ys : List (List ℕ)) → map padded (xs ++ ys) ≡ map padded xs ++ map padded ys
map-append [] ys = refl
map-append (x ∷ xs) ys = ap (padded x ∷◌) (map-append xs ys)

-- What the entries of the history are for some texts.
abbrev entries_of : List (List ℕ) → List (List ℕ)
entries_of past = map padded past ++ replicate (100 - length past) (replicate 128 0)

abbrev Holds : List (List ℕ) → FinshShell → Type 0
Holds past s = (s.cmd_history ≡ entries_of past) × (s.history_count ≡ length past)

-- The text of the line, put behind a full history.
full_entries :
    (past : List (List ℕ)) (xs : List ℕ)
    → length past ≡ 100
    → drop 1 (entries_of past) ++ padded xs ∷ [] ≡ entries_of (drop 1 past ++ xs ∷ [])
full_entries [] xs e = absurd (omega arith)
full_entries (p ∷ past) xs e =
    let none_left : 100 - suc (length past) ≡ 0 = omega arith in
    let none_later : 100 - length (past ++ xs ∷ []) ≡ 0 =
      omega (arith, length-append past (xs ∷ [])) in
    rw (none_left, none_later)
      (ap (λ ys. ys ++ padded xs ∷ []) (append-nil (map padded past))
        ∙ sym (map-append past (xs ∷ []))
        ∙ sym (append-nil (map padded (past ++ xs ∷ []))))

-- The text of the line, put behind one that has room.
free_entries :
    (past : List (List ℕ)) (xs : List ℕ)
    → length past < 100
    → set (entries_of past) (length past) (padded xs) ≡ entries_of (past ++ xs ∷ [])
free_entries past xs l =
    let left : 100 - length past ≡ suc (99 - length past) = omega arith in
    let later : 100 - length (past ++ xs ∷ []) ≡ 99 - length past =
      omega (arith, length-append past (xs ∷ [])) in
    let zeros : List (List ℕ) = replicate (99 - length past) (replicate 128 0) in
    rw (left, later, map-append past (xs ∷ []))
      (ap (λ i. set (map padded past ++ replicate 128 0 ∷ zeros) i (padded xs))
          (sym (length-map padded past))
        ∙ set-append (map padded past) zeros (replicate 128 0) (padded xs)
        ∙ sym (append_assoc (map padded past) (padded xs ∷ []) zeros))

-- A line of text that is entered.
module _ (s : FinshShell) (d : Desk) (m : Mirrors d s) where
  abbrev typed : List ℕ
  typed = in_order d.line

  typed_sized : length typed + m.shows.spare ≡ 127
  typed_sized = let r = m.shows.room in omega (arith, length-rev_onto d.line.before d.line.after)

  typed_line : s.line ≡ typed ++ replicate (suc (suc m.shows.spare)) 0
  typed_line =
      m.shows.bytes
      ∙ rev_onto-append d.line.before d.line.after (replicate (suc (suc m.shows.spare)) 0)

  typed_position : s.line_position ≡ length typed
  typed_position = m.shows.position ∙ sym (length-rev_onto d.line.before d.line.after)

  padded-typed : typed ++ replicate (suc m.shows.spare) 0 ≡ padded typed
  padded-typed =
      let e : suc m.shows.spare ≡ 128 - length typed = omega (arith, typed_sized) in
      ap (λ n. typed ++ replicate n 0) e

  entry_typed : line_entry s ≡ padded typed
  entry_typed =
      line_entry_lem s typed m.shows.spare typed_line typed_sized typed_position ∙ padded-typed

  same_typed : (i : ℕ) → i < length d.past → is_same s i ≡ memcmp_equal (get_or d.past i []) typed
  same_typed i l =
      let entry = entry_at d.past d.current s i m.recalls l in
      let front =
        line_starts s typed m.shows.spare typed_line typed_sized typed_position ∙ padded-typed in
      ap₂ memcmp_equal (entry.0) front
      ∙ memcmp_equal_padded 128 (get_or d.past i []) typed (entry.1.0) m.string
          (omega (arith, entry.1.1)) (omega (arith, typed_sized))

  -- What the shell tests is what the desk tests.
  full_test : length d.past ≡ 100 → is_same s 99 ≡ is_last typed d.past
  full_test e =
      let last : 99 ≡ length d.past - 1 = omega (arith, e) in
      rw (ne→== (length d.past) 0 (omega (arith, e)))
        (ap (is_same s) last ∙ same_typed (length d.past - 1) (omega (arith, e)))

  free_test :
      ((s.history_count == 0) || not (is_same s (s.history_count - 1))) ≡ not (is_last typed d.past)
  free_test = elim (Bool-cases (length d.past == 0)) [
    | inl p ↦ rw (m.recalls.count, p) refl
    | inr p ↦
        let n = ==_false (length d.past) 0 p in
        rw (m.recalls.count, p) (ap not (same_typed (length d.past - 1) (omega arith)))
  ]

  unchanged : Holds d.past s
  unchanged = (m.recalls.entries, m.recalls.count)

  line_kept-Holds :
      Holds (if is_last typed d.past then d.past else kept d.past ++ typed ∷ []) (line_kept s)
  unfolding line_kept
  line_kept-Holds = elim (Bool-cases (leb 100 (length d.past))) [
    | inl p ↦
        let whole : length d.past ≡ 100 = omega (arith, leb→le _ _ p, m.recalls.hundred) in
        let is_full : leb 100 s.history_count ≡ true = ap (leb 100) m.recalls.count ∙ p in
        elim (Bool-cases (is_last typed d.past)) [
          | inl q ↦ rw (is_full, full_test whole, q) unchanged
          | inr q ↦
              rw (is_full, full_test whole, q, p, entry_typed, m.recalls.entries)
                (
                  full_entries d.past typed whole,
                  omega (
                    arith,
                    whole,
                    length-append (drop 1 d.past) (typed ∷ []),
                    length-drop 1 d.past,
                  ),
                )
        ]
    | inr p ↦
        let is_free : leb 100 s.history_count ≡ false = ap (leb 100) m.recalls.count ∙ p in
        elim (Bool-cases (is_last typed d.past)) [
          | inl q ↦ rw (is_free, free_test, q) unchanged
          | inr q ↦
              rw (is_free, free_test, q, p, entry_typed, m.recalls.entries, m.recalls.count)
                (
                  free_entries d.past typed (leb→gt _ _ p),
                  omega (arith, length-append d.past (typed ∷ [])),
                )
        ]
  ]

  remembered_texts : (xs : List ℕ) → typed ≡ xs → All IsLineText (remember xs d.past)
  unfolding remember
  remembered_texts [] e = m.recalls.texts
  remembered_texts (c ∷ cs) e =
      let good : IsLineText (c ∷ cs) = subst IsLineText e (m.string, omega (arith, typed_sized)) in
      let before : All IsLineText (kept d.past) =
        if_elim (All IsLineText) (leb 100 (length d.past))
          (λ full. All-drop IsLineText 1 d.past m.recalls.texts) (λ free. m.recalls.texts) in
      if_elim (All IsLineText) (is_last (c ∷ cs) d.past) (λ same. m.recalls.texts)
        (λ other. All-snoc IsLineText (kept d.past) (c ∷ cs) before good)

  remembered_hundred : (xs : List ℕ) → length (remember xs d.past) ≤ 100
  unfolding remember
  remembered_hundred [] = m.recalls.hundred
  remembered_hundred (c ∷ cs) =
      if_elim (λ (past : List (List ℕ)). length past ≤ 100) (is_last (c ∷ cs) d.past)
        (λ same. m.recalls.hundred)
        (λ other.
          let more = length-append (kept d.past) ((c ∷ cs) ∷ []) in
          let room : length (kept d.past) ≤ 99 =
            if_elim (λ (past : List (List ℕ)). length past ≤ 99) (leb 100 (length d.past))
              (λ full. omega (arith, m.recalls.hundred, length-drop 1 d.past))
              (λ free. omega (arith, leb→gt _ _ free)) in
          omega arith)

  pushed_entries : (xs : List ℕ) → typed ≡ xs → Holds (remember xs d.past) (history_pushed s)
  unfolding remember history_pushed
  pushed_entries [] e = rw (ap (λ n. n == 0) (typed_position ∙ ap length e)) unchanged
  pushed_entries (c ∷ cs) e =
      let some_text : s.line_position ≢ 0 = λ z. omega (arith, typed_position, ap length e, z) in
      rw (ne→== s.line_position 0 some_text) (
        subst
          (λ xs. Holds (if is_last xs d.past then d.past else kept d.past ++ xs ∷ []) (line_kept s))
          e line_kept-Holds)

  -- What is in the history afterwards.
  pub history_pushed-Recalls :
      let past = remember (in_order d.line) d.past in Recalls past (length past) (history_pushed s)
  unfolding history_pushed
  history_pushed-Recalls =
      let held = pushed_entries typed refl in
      record {
        entries = held.0;
        count = held.1;
        at = held.1;
        hundred = remembered_hundred typed;
        inside = omega arith;
        texts = remembered_texts typed refl;
      }
