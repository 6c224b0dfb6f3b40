-- ===== src/Shell/Recall.antt =====
-- A command line in the history, and back from it.
use motor_test.Base.{
  both, not-false, neither, ℕ, suc, ◌+◌, ◌-◌, ◌≤◌, ◌≡◌, ◌≢◌, refl, sym, ap, ap₂, ◌∙◌, arith, leb,
  ◌==◌, if_elim,
}
use motor_test.Base.{ne→==, leb→le, leb→gt, ==_true, ==_false, true, not, ◌||◌, le→leb}
use motor_test.Base.{List, [], ◌∷◌, ◌++◌, All, length, length-append, get_or, some}
use mathlib.Core.List.{append_assoc}
use motor_test.Base.Memory.{
  take, drop, replicate, take-append, length-drop, length-replicate, memcpy, strlen,
}
use motor_test.Base.Memory.Laws.{
  replicate_snoc, get_or-set_same, get_or-snoc, take_all, strlen-append,
}
use motor_test.Shell.{FinshShell, Done, wait_normal}
use motor_test.Shell.Names.{memcmp_equal}
use motor_test.Shell.Table.{FinshSyscall}
use motor_test.Shell.History.{prev16, recall, up_key}
use motor_test.Shell.Pushed.{
  line_entry, is_same, line_kept, history_pushed, get_elem?-some, shell_push_history-history_pushed,
}
use motor_test.Shell.Safe.Run.{msh_exec-total, enter_key-line_entered}
use motor_test.Shell.Keys.{enter_key, plain_key, by_stat, finsh_key}
use motor_test.Shell.Editor.{Text, Shows, in_order}
use motor_test.Shell.Editor.Moves.{length-rev_onto, rev_onto-append}

memcmp_equal→≡ : (xs ys : List ℕ) → memcmp_equal xs ys ≡ true → xs ≡ ys
unfolding memcmp_equal
memcmp_equal→≡ [] [] h = refl
memcmp_equal→≡ [] (y ∷ ys) h = absurd (cc)
memcmp_equal→≡ (x ∷ xs) [] h = absurd (cc)
memcmp_equal→≡ (x ∷ xs) (y ∷ ys) h =
    let parts = both (x == y) (memcmp_equal xs ys) h in
    ap₂ (λ c cs. c ∷ cs) (==_true x y (parts.0)) (memcmp_equal→≡ xs ys (parts.1))

-- The line of a shell that shows a text, as an entry of the history.
module _ (s : FinshShell) (xs : List ℕ) (k : ℕ) (line : s.line ≡ xs ++ replicate (suc (suc k)) 0)
    (room : length xs + k ≡ 127) (position : s.line_position ≡ length xs) where
  abbrev pub entry : List ℕ
  entry = xs ++ replicate (suc k) 0

  pub entry_sized : length entry ≡ 128
  entry_sized =
      omega (arith, length-append xs (replicate (suc k) 0), length-replicate {A = ℕ} (suc k) 0)

  pub line_ends : s.line ≡ entry ++ 0 ∷ []
  line_ends =
      line
      ∙ ap (xs ++◌) (replicate_snoc (suc k) 0)
      ∙ sym (append_assoc xs (replicate (suc k) 0) (0 ∷ []))

  pub line_starts : take 128 s.line ≡ entry
  line_starts =
      rw (line_ends)
        (ap (λ n. take n (entry ++ 0 ∷ [])) (sym entry_sized) ∙ take-append entry (0 ∷ []))

  pub line_entry_lem : line_entry s ≡ entry
  unfolding line_entry
  line_entry_lem =
      let count : 128 - s.line_position ≡ suc k = omega (arith, room, position) in
      rw (count, position, line)
        (ap (λ front. front ++ replicate (suc k) 0) (take-append xs (replicate (suc (suc k)) 0)))

  -- An entry that counts as the same is the same.
  is_same_lem : (i : ℕ) → is_same s i ≡ true → get_or s.cmd_history i [] ≡ entry
  is_same_lem i h = memcmp_equal→≡ (get_or s.cmd_history i []) (take 128 s.line) h ∙ line_starts

  -- However the line gets into the history, it is the last entry afterwards.
  abbrev EndsWithEntry : FinshShell → Type 0
  EndsWithEntry u = (1 ≤ u.history_count) × (get_or u.cmd_history (u.history_count - 1) [] ≡ entry)

  line_kept_last : length s.cmd_history ≡ 100 → s.history_count ≤ 100 → EndsWithEntry (line_kept s)
  unfolding line_kept
  line_kept_last hundred counted =
      if_elim EndsWithEntry (leb 100 s.history_count)
        (λ full.
          let e : s.history_count ≡ 100 = omega (arith, leb→le _ _ full) in
          if_elim EndsWithEntry (not (is_same s 99))
            (λ other. (
              omega arith,
              get_or-snoc (drop 1 s.cmd_history) (line_entry s) 99 []
                    (omega (arith, length-drop 1 s.cmd_history))
                  ∙ line_entry_lem,
            ))
            (λ same. (omega arith, rw e (is_same_lem 99 (not-false _ same)))))
        (λ free.
          let l = leb→gt _ _ free in
          if_elim EndsWithEntry ((s.history_count == 0) || not (is_same s (s.history_count - 1)))
            (λ other.
              let e : s.history_count + 1 - 1 ≡ s.history_count = omega arith in
              (
                omega arith,
                rw e (
                    get_or-set_same s.cmd_history s.history_count _ [] (omega arith)
                    ∙ line_entry_lem),
              ))
            (λ same.
              let parts = neither _ _ same in
              let n = ==_false s.history_count 0 (parts.0) in
              (omega arith, is_same_lem (s.history_count - 1) (not-false _ (parts.1)))))

  pushed_last :
      1 ≤ length xs
      → length s.cmd_history ≡ 100
      → s.history_count ≤ 100
      → EndsWithEntry (history_pushed s)
        × ((history_pushed s).current_history ≡ (history_pushed s).history_count)
  unfolding history_pushed
  pushed_last some_text hundred counted = (
    if_elim EndsWithEntry (s.line_position == 0)
        (λ empty. absurd (let e = ==_true s.line_position 0 empty in omega (arith, position)))
        (λ full. line_kept_last hundred counted),
    refl,
  )

  copied : memcpy (replicate 129 0) entry 128 ≡ some s.line
  unfolding memcpy
  copied =
      let all : take 128 entry ≡ entry =
        ap (λ n. take n entry) (sym entry_sized) ∙ take_all entry in
      rw (le→leb 128 (length entry) (omega (arith, entry_sized)))
        (ap some (ap (λ front. front ++ 0 ∷ []) all ∙ sym line_ends))

  -- An empty line that takes an entry becomes the line.
  recalled :
      (u : FinshShell)
      → u.line ≡ replicate 129 0
      → get_or u.cmd_history u.current_history [] ≡ entry
      → All (λ c. c ≢ 0) xs
      → recall u
        ≡ some (record u { line = s.line; line_position = length xs; line_curpos = length xs })
  unfolding recall
  recalled u cleared last nonzero =
      let measured : strlen s.line ≡ some (length xs) =
        ap strlen line ∙ strlen-append xs (replicate (suc k) 0) nonzero in
      let found =
        get_elem?-some u.cmd_history u.current_history entry last (omega (arith, entry_sized)) in
      rw (cleared, found, copied, measured) refl

pub enter_byte :
    (commands : List FinshSyscall) (s : FinshShell)
    → s.stat ≡ wait_normal
    → finsh_key commands s b'\n' ≡ enter_key commands s
unfolding finsh_key by_stat plain_key
enter_byte commands s normal = rw normal refl

history_pushed-few :
    (s : FinshShell) → s.history_count ≤ 100 → (history_pushed s).history_count ≤ 100
unfolding history_pushed line_kept
history_pushed-few s counted =
    if_elim (λ (u : FinshShell). u.history_count ≤ 100) (s.line_position == 0) (λ e. counted)
      (λ e.
        if_elim (λ (u : FinshShell). u.history_count ≤ 100) (leb 100 s.history_count)
          (λ e.
            if_elim (λ (u : FinshShell). u.history_count ≤ 100) (not (is_same s 99))
              (λ e. omega arith) (λ e. counted))
          (λ free.
            let l = leb→gt _ _ free in
            if_elim (λ (u : FinshShell). u.history_count ≤ 100)
              ((s.history_count == 0) || not (is_same s (s.history_count - 1))) (λ e. omega arith)
              (λ e. counted)))

-- A line with text that is entered, at most 127 characters and none of them 0, comes back as it was by
-- the up key, with the cursor behind its text, whether or not it was the last entry already, and
-- whether or not the history, of 100 entries, was full.
pub up_key-enter :
    (commands : List FinshSyscall) (s : FinshShell) (t : Text)
    → Shows t s
    → All (λ c. c ≢ 0) (in_order t)
    → 1 ≤ length (in_order t)
    → length s.cmd_history ≡ 100
    → s.history_count ≤ 100
    → (entered : FinshShell) × (ran : List Done) × (back : FinshShell) × (finsh_key commands s b'\n'
        ≡ some (entered, ran))
      × (up_key entered ≡ some back)
      × (entered.line_position ≡ 0)
      × (back.line ≡ s.line)
      × (back.line_position ≡ length (in_order t))
      × (back.line_curpos ≡ length (in_order t))
unfolding up_key
up_key-enter commands s t h nonzero some_text hundred counted =
    let xs = in_order t in
    let r = h.room in
    let sized = length-rev_onto t.before t.after in
    let line : s.line ≡ xs ++ replicate (suc (suc h.spare)) 0 =
      h.bytes ∙ rev_onto-append t.before t.after (replicate (suc (suc h.spare)) 0) in
    let position : s.line_position ≡ length xs = h.position ∙ sym sized in
    let last = pushed_last s xs h.spare line (omega arith) position some_text hundred counted in
    let pushed = history_pushed s in
    let whole : length s.line ≡ 129 = omega (
      arith,
      sized,
      ap length line,
      length-append xs (replicate (suc (suc h.spare)) 0),
      length-replicate {A = ℕ} (suc (suc h.spare)) 0,
    ) in
    let stays =
      shell_push_history-history_pushed s whole (omega (arith, position, sized)) hundred counted in
    let ran = msh_exec-total commands pushed.line pushed.line_position in
    let entered : FinshShell = record pushed {
      line = replicate 129 0;
      line_position = 0;
      line_curpos = 0;
    } in
    let n = last.0.0 in
    let few = history_pushed-few s counted in
    let before : FinshShell = record entered { current_history = prev16 entered.current_history } in
    let at_last : before.current_history ≡ pushed.history_count - 1 =
      omega (arith, last.1, n, few) in
    let found =
      recalled s xs h.spare line (omega arith) position before refl
        (ap (λ i. get_or pushed.cmd_history i []) at_last ∙ last.0.1) nonzero in
    (
      entered,
      ran.0 ∷ [],
      record before { line = s.line; line_position = length xs; line_curpos = length xs },
      enter_byte commands s h.normal ∙ enter_key-line_entered commands s pushed ran.0 stays ran.1,
      rw (ne→== pushed.current_history 0 (omega (arith, last.1))) found,
      refl,
      refl,
      refl,
      refl,
    )
