-- ===== src/Shell/Safe/Past.antt =====
-- The history keeps the invariant of the shell, and so does a line that comes back from it.
use motor_test.Base.{
  ℕ, zero, suc, ◌+◌, ◌-◌, ◌≤◌, ◌<◌, ◌≡◌, refl, ◌∙◌, arith, ltb, leb, ◌==◌, if_elim, not, ◌||◌,
}
use motor_test.Base.{leb→gt, ltb→lt, ==_false}
use motor_test.Base.{List, [], ◌∷◌, All, All-snoc, length, length-append, get_or, set}
use motor_test.Base.Memory.{
  take, drop, replicate, length-take, length-drop, length-replicate, length-set, get_or-append,
}
use motor_test.Base.Memory.Laws.{All-drop, All-get_or, memcpy_lem, strlen_lem}
use motor_test.Shell.{FinshShell}
use motor_test.Shell.History.{next16, prev16, recall, up_key, down_key}
use motor_test.Shell.Pushed.{line_entry, line_kept, is_same, history_pushed, get_elem?-get_or}
use motor_test.Shell.Safe.{IsEntry, IsHistory, IsSafe, Safely}

module _ {ℓ κ} {A : Type ℓ} (P : A → Type κ) where
  All-set : (xs : List A) (i : ℕ) (v : A) → All P xs → P v → All P (set xs i v)
  All-set [] i v h p = h
  All-set (x ∷ xs) zero v h p = (p, h.1)
  All-set (x ∷ xs) (suc i) v h p = (h.0, All-set xs i v h.1 p)

get_or-replicate : (n i d : ℕ) → i < n → get_or (replicate n 0) i d ≡ 0
get_or-replicate zero i d h = absurd (omega arith)
get_or-replicate (suc n) zero d h = refl
get_or-replicate (suc n) (suc i) d h = get_or-replicate n i d (omega arith)

line_entry-IsEntry : (s : FinshShell) → IsSafe s → IsEntry (line_entry s)
unfolding line_entry
line_entry-IsEntry s h =
    let r = h.text.room in
    let front = take s.line_position s.line in
    let sized : length front ≡ s.line_position =
      length-take s.line_position s.line (omega (arith, h.text.sized)) in
    (
      omega (
        arith,
        sized,
        length-append front (replicate (128 - s.line_position) 0),
        length-replicate {A = ℕ} (128 - s.line_position) 0,
      ),
      get_or-append front (replicate (128 - s.line_position) 0) 127 1 (omega arith)
          ∙ get_or-replicate (128 - s.line_position) (127 - length front) 1 (omega arith),
    )

line_kept-IsSafe : (s : FinshShell) → IsSafe s → IsSafe (line_kept s)
unfolding line_kept
line_kept-IsSafe s h =
    let p = h.past in
    let e = line_entry-IsEntry s h in
    if_elim IsSafe (leb 100 s.history_count)
      (λ full.
        if_elim IsSafe (not (is_same s 99))
          (λ other. record {
            text = h.text;
            past = record {
              hundred = omega (
                arith,
                p.hundred,
                length-append (drop 1 s.cmd_history) (line_entry s ∷ []),
                length-drop 1 s.cmd_history,
              );
              all_entries =
                  All-snoc IsEntry (drop 1 s.cmd_history) _ (All-drop IsEntry 1 _ p.all_entries) e;
              counted = omega arith;
              in_count = omega (arith, p.in_count, p.counted);
            };
          })
          (λ same. h))
      (λ free.
        if_elim IsSafe ((s.history_count == 0) || not (is_same s (s.history_count - 1)))
          (λ other. record {
            text = h.text;
            past = record {
              hundred = length-set s.cmd_history s.history_count (line_entry s) ∙ p.hundred;
              all_entries = All-set IsEntry s.cmd_history s.history_count _ p.all_entries e;
              counted = omega (arith, leb→gt _ _ free);
              in_count = omega (arith, p.in_count);
            };
          })
          (λ same. h))

pub history_pushed-IsSafe : (s : FinshShell) → IsSafe s → IsSafe (history_pushed s)
unfolding history_pushed
history_pushed-IsSafe s h =
    let pushed =
      if_elim IsSafe (s.line_position == 0) (λ empty. h) (λ some_text. line_kept-IsSafe s h) in
    record {
      text = pushed.text;
      past = record {
        hundred = pushed.past.hundred;
        all_entries = pushed.past.all_entries;
        counted = pushed.past.counted;
        in_count = omega arith;
      };
    }

-- An entry that is recalled becomes the line.
recall-IsSafe :
    (s : FinshShell)
    → length s.line ≡ 129
    → get_or s.line 128 1 ≡ 0
    → IsHistory s.cmd_history s.history_count s.current_history
    → s.current_history < 100
    → Safely (recall s)
unfolding recall
recall-IsSafe s sized ended p l =
    let e =
      All-get_or IsEntry s.cmd_history s.current_history [] p.all_entries
        (omega (arith, p.hundred)) in
    let found = get_elem?-get_or s.cmd_history s.current_history (omega (arith, p.hundred)) in
    let copied =
      memcpy_lem s.line (get_or s.cmd_history s.current_history []) 128 (omega (arith, e.0))
        (omega arith) in
    let zero_byte = copied.3 127 1 (omega arith) ∙ e.1 in
    let n = strlen_lem copied.0 127 zero_byte in
    rw (found, copied.1, n.1)
      (record {
        text = record {
          sized = copied.2.same_length ∙ sized;
          ended = copied.2.same_from 128 1 (omega arith) ∙ ended;
          cursor = omega arith;
          room = omega (arith, n.2);
        };
        past = p;
      })

moved_in :
    (entries : List (List ℕ)) (count current current' : ℕ)
    → IsHistory entries count current
    → current' ≤ count
    → IsHistory entries count current'
moved_in entries count current current' p l = record {
  hundred = p.hundred;
  all_entries = p.all_entries;
  counted = p.counted;
  in_count = l;
}

pub up_key-IsSafe : (s : FinshShell) → IsSafe s → Safely (up_key s)
unfolding up_key
up_key-IsSafe s h =
    let p = h.past in
    if_elim Safely (s.current_history == 0) (λ first. h)
      (λ later.
        let n = ==_false s.current_history 0 later in
        recall-IsSafe (record s { current_history = prev16 s.current_history }) h.text.sized
          h.text.ended
          (moved_in _ _ _ (prev16 s.current_history) p (omega (arith, p.in_count, p.counted)))
          (omega (arith, p.in_count, p.counted)))

pub down_key-IsSafe : (s : FinshShell) → IsSafe s → Safely (down_key s)
unfolding down_key
down_key-IsSafe s h =
    let p = h.past in
    if_elim Safely (ltb (s.current_history + 1) s.history_count)
      (λ inside.
        let l = ltb→lt _ _ inside in
        recall-IsSafe (record s { current_history = next16 s.current_history }) h.text.sized
          h.text.ended (moved_in _ _ _ (next16 s.current_history) p (omega (arith, p.counted)))
          (omega (arith, p.counted)))
      (λ last.
        if_elim Safely (s.history_count == 0) (λ empty. h)
          (λ some_entry.
            let n = ==_false s.history_count 0 some_entry in
            recall-IsSafe (record s { current_history = prev16 s.history_count }) h.text.sized
              h.text.ended (moved_in _ _ _ (prev16 s.history_count) p (omega (arith, p.counted)))
              (omega (arith, p.counted))))
