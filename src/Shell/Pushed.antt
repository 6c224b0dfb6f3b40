-- ===== src/Shell/Pushed.antt =====
-- What the history of a shell is after a line, where the positions lie in the buffers, and that
-- `shell_push_history` of libfinsh/finsh.c gives it.
use motor_test.Base.{
  ℕ, zero, suc, ◌+◌, ◌-◌, ◌≤◌, ◌<◌, ◌≡◌, refl, sym, ap, ◌∙◌, arith, Bool, not, ◌||◌, if◌then◌else◌,
  leb, ◌==◌, le→leb, lt→ltb, Bool-cases, inl, inr, leb→gt, ==_false,
}
use motor_test.Base.{List, [], ◌∷◌, ◌++◌, length, get_or, get_elem?, set, some}
use motor_test.Base.Memory.{take, drop, replicate, memcpy}
use motor_test.Shell.{FinshShell}
use motor_test.Shell.Names.{memcmp_equal}
use motor_test.Shell.History.{
  prev16, next16, entry_of, same_as, put_next, with_line, shell_push_history,
}

-- The line as an entry.
unfoldable pub line_entry : FinshShell → List ℕ
line_entry s = take s.line_position s.line ++ replicate (128 - s.line_position) 0

abbrev pub is_same : FinshShell → ℕ → Bool
is_same s index = memcmp_equal (get_or s.cmd_history index []) (take 128 s.line)

unfoldable pub line_kept : FinshShell → FinshShell
unfolding line_entry
line_kept s =
    if leb 100 s.history_count
    then (if not (is_same s 99)
        then record s {
          cmd_history = drop 1 s.cmd_history ++ line_entry s ∷ [];
          history_count = 100;
        }
        else s)
    else if (s.history_count == 0) || not (is_same s (s.history_count - 1))
    then record s {
      cmd_history = set s.cmd_history s.history_count (line_entry s);
      history_count = s.history_count + 1;
    }
    else s

unfoldable pub history_pushed : FinshShell → FinshShell
unfolding line_kept
history_pushed s =
    let pushed = if s.line_position == 0 then s else line_kept s in
    record pushed { current_history = pushed.history_count }

pub get_elem?-get_or :
    (entries : List (List ℕ)) (i : ℕ)
    → i < length entries
    → get_elem? entries i ≡ some (get_or entries i [])
get_elem?-get_or [] i h = absurd (omega arith)
get_elem?-get_or (x ∷ xs) zero h = refl
get_elem?-get_or (x ∷ xs) (suc i) h = get_elem?-get_or xs i (omega arith)

-- An index at which something stands is one of the list.
pub get_elem?-some :
    (entries : List (List ℕ)) (i : ℕ) (entry : List ℕ)
    → get_or entries i [] ≡ entry
    → 1 ≤ length entry
    → get_elem? entries i ≡ some entry
get_elem?-some [] i entry e h = absurd (omega (arith, ap length e))
get_elem?-some (x ∷ xs) zero entry e h = ap some e
get_elem?-some (x ∷ xs) (suc i) entry e h = get_elem?-some xs i entry e h

drop-replicate : (n k : ℕ) → drop {A = ℕ} k (replicate n 0) ≡ replicate (n - k) 0
drop-replicate n zero = ap (λ i. replicate i 0) (sym (nothing_off n))
  where
    nothing_off : (n : ℕ) → n - 0 ≡ n
    nothing_off n = omega arith
drop-replicate zero (suc k) = ap (λ i. replicate i 0) (none_left k)
  where
    none_left : (k : ℕ) → 0 ≡ 0 - suc k
    none_left k = omega arith
drop-replicate (suc n) (suc k) =
    let e : n - k ≡ suc n - suc k = omega arith in drop-replicate n k ∙ ap (λ i. replicate i 0) e

-- A shell whose positions lie in its buffers.
module _ (s : FinshShell) (sized : length s.line ≡ 129) (room : s.line_position ≤ 128)
    (hundred : length s.cmd_history ≡ 100) (counted : s.history_count ≤ 100) where
  entry_of-line_entry : entry_of s ≡ some (line_entry s)
  unfolding entry_of line_entry memcpy
  entry_of-line_entry =
      rw
        (
          le→leb s.line_position (length s.line) (omega (arith, sized)),
          le→leb s.line_position 128 room,
        )
        (ap (λ zeros. some (take s.line_position s.line ++ zeros))
          (drop-replicate 128 s.line_position))

  same_as-is_same : (i : ℕ) → i < 100 → same_as s i ≡ some (is_same s i)
  unfolding same_as
  same_as-is_same i l = rw (get_elem?-get_or s.cmd_history i (omega (arith, hundred))) refl

  put_next_lem :
      s.history_count < 100
      → put_next s (some (line_entry s))
        ≡ some (record s {
          cmd_history = set s.cmd_history s.history_count (line_entry s);
          history_count = s.history_count + 1;
        })
  unfolding put_next
  put_next_lem l =
      let next : next16 s.history_count ≡ s.history_count + 1 = omega arith in
      rw (lt→ltb s.history_count (length s.cmd_history) (omega (arith, hundred)), next) refl

  with_line-line_kept : with_line s ≡ some (line_kept s)
  unfolding with_line line_kept
  with_line-line_kept = elim (Bool-cases (leb 100 s.history_count)) [
    | inl full ↦ elim (Bool-cases (is_same s 99)) [
      | inl p ↦ rw (full, same_as-is_same 99 (omega arith), p) refl
      | inr p ↦ rw (full, same_as-is_same 99 (omega arith), p, entry_of-line_entry) refl
    ]
    | inr free ↦
        let l : s.history_count < 100 = leb→gt 100 s.history_count free in
        let put = ap (put_next s) entry_of-line_entry ∙ put_next_lem l in
        elim (Bool-cases (s.history_count == 0)) [
          | inl p ↦ rw (free, p) put
          | inr p ↦
              let n = ==_false s.history_count 0 p in
              let before : prev16 s.history_count ≡ s.history_count - 1 = omega arith in
              let same =
                ap (same_as s) before ∙ same_as-is_same (s.history_count - 1) (omega arith) in
              elim (Bool-cases (is_same s (s.history_count - 1))) [
                | inl q ↦ rw (free, p, same, q) refl
                | inr q ↦ rw (free, p, same, q) put
              ]
        ]
  ]

  -- `shell_push_history` stays in the buffers.
  pub shell_push_history-history_pushed : shell_push_history s ≡ some (history_pushed s)
  unfolding shell_push_history history_pushed
  shell_push_history-history_pushed = elim (Bool-cases (s.line_position == 0)) [
    | inl p ↦ rw p refl
    | inr p ↦ rw (p, with_line-line_kept) refl
  ]
