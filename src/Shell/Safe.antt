-- ===== src/Shell/Safe.antt =====
-- The invariant of the shell, and the keys that edit the line.
pub mod Past
pub mod Tab
pub mod Run
pub mod Step
use motor_test.Base.{
  ℕ, zero, suc, ◌+◌, ◌-◌, ◌≤◌, ◌<◌, ◌≡◌, ◌≢◌, refl, sym, ap, ◌∙◌, arith, ltb, leb, ◌==◌, lt→leb,
  if_elim,
}
use motor_test.Base.{
  leb→le, leb→gt, ltb→lt, ltb→ge, ==_true, ==_false, Bool-cases, inl, inr, if◌then◌else◌,
}
use motor_test.Base.{
  List, [], ◌∷◌, ◌++◌, All, All-append, length, length-append, get_or, set, Option, some, none,
  true, false,
}
use motor_test.Base.Memory.{take, drop, replicate, memmove, store_at, strlen}
use motor_test.Base.Memory.Laws.{SameFrom, SameFrom-trans, memmove_lem, store_at_lem, strlen_lem}
use motor_test.Shell.{FinshShell, Done, InputStat}
use motor_test.Shell.Keys.{
  Outcome, quietly, with_text, put_in, advanced, shortened, insert_key, close_gap, backspace_key,
}
use motor_test.Shell.Keys.{next16, prev16, left_key, right_key}

-- A line whose cursor stands in its text, which leaves room for a byte and the terminating 0.
pub record IsLine (line : List ℕ) (position curpos : ℕ) : Type 0 where
  pub sized : length line ≡ 129
  pub ended : get_or line 128 1 ≡ 0
  pub cursor : curpos ≤ position
  pub room : position < 128

-- An entry of the history ends with a 0.
abbrev pub IsEntry : List ℕ → Type 0
IsEntry e = (length e ≡ 128) × (get_or e 127 1 ≡ 0)

pub record IsHistory (entries : List (List ℕ)) (count current : ℕ) : Type 0 where
  pub hundred : length entries ≡ 100
  pub all_entries : All IsEntry entries
  pub counted : count ≤ 100
  pub in_count : current ≤ count

pub record IsSafe (s : FinshShell) : Type 0 where
  pub text : IsLine s.line s.line_position s.line_curpos
  pub past : IsHistory s.cmd_history s.history_count s.current_history

-- A safe shell is left.
abbrev pub Safely : Option FinshShell → Type 0
Safely none = ⊥
Safely (some s) = IsSafe s

-- A write below index 128 keeps the end of the line.
written-IsLine :
    (line out : List ℕ) (position curpos k position' curpos' : ℕ)
    → IsLine line position curpos
    → SameFrom k line out
    → k ≤ 128
    → curpos' ≤ position'
    → position' < 128
    → IsLine out position' curpos'
written-IsLine line out position curpos k position' curpos' h s le c r = record {
  sized = s.same_length ∙ h.sized;
  ended = s.same_from 128 1 le ∙ h.ended;
  cursor = c;
  room = r;
}

put_in_lem :
    (s : FinshShell) (ch : ℕ)
    → IsSafe s
    → (out : List ℕ) × (put_in s ch ≡ some out) × SameFrom (suc s.line_position) s.line out
unfolding put_in
put_in_lem s ch h = elim (Bool-cases (ltb s.line_curpos s.line_position)) [
  | inl p ↦
      let l = ltb→lt _ _ p in
      let moved =
        memmove_lem s.line (s.line_curpos + 1) s.line_curpos (s.line_position - s.line_curpos)
          (omega (arith, h.text.sized, h.text.room)) (omega (arith, h.text.sized, h.text.room)) in
      let stored =
        store_at_lem moved.0 s.line_curpos ch
          (omega (arith, moved.2.same_length, h.text.sized, h.text.room)) in
      (
        stored.0,
        rw (p, moved.1) (stored.1),
        SameFrom-trans _ _ _ _ _ _ (omega arith) (omega arith) moved.2 stored.2,
      )
  | inr p ↦
      let stored =
        store_at_lem s.line s.line_position ch (omega (arith, h.text.sized, h.text.room)) in
      (stored.0, rw p (stored.1), stored.2)
]

-- With room in the line a byte is put in, or completes the line, which is given up then.
pub insert_key-IsSafe : (s : FinshShell) (ch : ℕ) → IsSafe s → Safely (insert_key s ch)
unfolding insert_key
insert_key-IsSafe s ch h =
    let put = put_in_lem s ch h in
    let same : shortened s ≡ s = rw (lt→leb 128 s.line_position h.text.room) refl in
    rw (same, put.1)
      (if_elim (λ (t : FinshShell). Safely (some (record t { line = put.0 })))
        (leb 128 (next16 s.line_position))
        (λ full. record {
          text =
              written-IsLine s.line put.0 _ _ (suc s.line_position) 0 0 h.text put.2
                (omega (arith, h.text.room)) (omega arith) (omega arith);
          past = h.past;
        })
        (λ fits.
          let r = h.text.room in
          let c = h.text.cursor in
          let f = leb→gt 128 (next16 s.line_position) fits in
          record {
            text =
                written-IsLine s.line put.0 _ _ (suc s.line_position) _ _ h.text put.2 (omega arith)
                  (omega arith) (omega arith);
            past = h.past;
          }))

close_gap_lem :
    (s : FinshShell)
    → length s.line ≡ 129
    → s.line_position < 128
    → (out : List ℕ) × (close_gap s ≡ some out) × SameFrom (suc s.line_position) s.line out
unfolding close_gap
close_gap_lem s e r = elim (Bool-cases (ltb s.line_curpos s.line_position)) [
  | inl p ↦
      let l = ltb→lt _ _ p in
      let moved =
        memmove_lem s.line s.line_curpos (s.line_curpos + 1) (s.line_position - s.line_curpos)
          (omega arith) (omega arith) in
      let stored = store_at_lem moved.0 s.line_position 0 (omega (arith, moved.2.same_length)) in
      (
        stored.0,
        rw (p, moved.1) (stored.1),
        SameFrom-trans _ _ _ _ _ _ (omega arith) (omega arith) moved.2 stored.2,
      )
  | inr p ↦
      let stored = store_at_lem s.line s.line_position 0 (omega arith) in
      (stored.0, rw p (stored.1), stored.2)
]

pub backspace_key-IsSafe : (s : FinshShell) → IsSafe s → Safely (backspace_key s)
unfolding backspace_key
backspace_key-IsSafe s h =
    if_elim Safely (s.line_curpos == 0) (λ first. h)
      (λ later.
        let c = h.text.cursor in
        let r = h.text.room in
        let n = ==_false s.line_curpos 0 later in
        let moved : FinshShell = record s {
          line_position = prev16 s.line_position;
          line_curpos = prev16 s.line_curpos;
        } in
        let closed = close_gap_lem moved h.text.sized (omega arith) in
        rw (closed.1) (record {
          text =
              written-IsLine s.line closed.0 _ _ (suc (prev16 s.line_position)) _ _ h.text closed.2
                (omega arith) (omega arith) (omega arith);
          past = h.past;
        }))

pub left_key-IsSafe : (s : FinshShell) → IsSafe s → IsSafe (left_key s)
unfolding left_key
left_key-IsSafe s h =
    let c = h.text.cursor in
    let r = h.text.room in
    if_elim IsSafe (s.line_curpos == 0) (λ first. h)
      (λ later.
        let n = ==_false s.line_curpos 0 later in
        record {
          text = record {
            sized = h.text.sized;
            ended = h.text.ended;
            cursor = omega arith;
            room = h.text.room;
          };
          past = h.past;
        })

pub right_key-IsSafe : (s : FinshShell) → IsSafe s → IsSafe (right_key s)
unfolding right_key
right_key-IsSafe s h =
    let r = h.text.room in
    if_elim IsSafe (ltb s.line_curpos s.line_position)
      (λ inside.
        let l = ltb→lt _ _ inside in
        record {
          text = record {
            sized = h.text.sized;
            ended = h.text.ended;
            cursor = omega arith;
            room = h.text.room;
          };
          past = h.past;
        })
      (λ outside. h)
