-- ===== src/Shell/Editor/Refine.antt =====
-- The keys that edit the line do on the buffer what the edits do on the text.
use motor_test.Base.{ℕ, suc, ◌+◌, ◌-◌, ◌≡◌, refl, sym, ap, ◌∙◌, arith, ◌==◌, lt→leb}
use motor_test.Base.{lt→ltb, ge→ltb, ne→==}
use motor_test.Base.{List, [], ◌∷◌, ◌++◌, length, Option, some, none}
use motor_test.Base.Memory.{replicate}
use motor_test.Shell.{FinshShell}
use motor_test.Shell.Keys.{put_in, close_gap, shortened, next16, prev16}
use motor_test.Shell.Keys.{insert_key, backspace_key, left_key, right_key}
use motor_test.Shell.Editor.{Text, text, erased, to_left, to_right, Shows, Keeps, rev_onto}
use motor_test.Shell.Editor.Moves.{
  length-rev_onto, rev_onto-append, store_at_append, open_gap, shut_gap,
}

pub Keeps-refl : (s : FinshShell) → Keeps s s
Keeps-refl s = record { entries = refl; count = refl; current = refl }

-- The shell after a key: its text, and the history as it was.
abbrev pub Edited : Text → FinshShell → Option FinshShell → Type 0
Edited t s none = ⊥
Edited t s (some s') = Shows t s' × Keeps s s'

pub put_in_at :
    (s : FinshShell) (u a z : List ℕ) (c : ℕ)
    → s.line ≡ u ++ (a ++ 0 ∷ z)
    → s.line_curpos ≡ length u
    → s.line_position ≡ length u + length a
    → put_in s c ≡ some (u ++ (c ∷ (a ++ z)))
unfolding put_in
put_in_at s u [] z c line cur at =
    let here : s.line_position ≡ length u = omega (arith, at) in
    rw (ge→ltb s.line_curpos s.line_position (omega (arith, cur, here)), line, here)
      (store_at_append u z 0 c)
put_in_at s u (x ∷ a) z c line cur at =
    let opened = open_gap u (x ∷ a) z 0 c in
    let count : s.line_position - s.line_curpos ≡ length (x ∷ a) = omega (arith, cur, at) in
    rw
      (
        lt→ltb s.line_curpos s.line_position (omega (arith, cur, at)),
        count,
        line,
        cur,
        opened.1,
        cur,
      )
      (opened.2)

close_gap_at :
    (s : FinshShell) (u a z : List ℕ) (x : ℕ)
    → s.line ≡ u ++ (x ∷ (a ++ z))
    → s.line_curpos ≡ length u
    → s.line_position ≡ length u + length a
    → close_gap s ≡ some (u ++ (a ++ 0 ∷ z))
unfolding close_gap
close_gap_at s u [] z x line cur at =
    let here : s.line_position ≡ length u = omega (arith, at) in
    rw (ge→ltb s.line_curpos s.line_position (omega (arith, cur, here)), line, here)
      (store_at_append u z x 0)
close_gap_at s u (y ∷ a) z x line cur at =
    let shut = shut_gap u (y ∷ a) z x in
    let count : s.line_position - s.line_curpos ≡ length (y ∷ a) = omega (arith, cur, at) in
    rw (lt→ltb s.line_curpos s.line_position (omega (arith, cur, at)), count, line, cur, shut.1, at)
      (shut.2)

-- A text as the part before the cursor, in its order, and the part behind it.
parted : (b xs : List ℕ) → rev_onto b xs ≡ rev_onto b [] ++ xs
parted b xs = rev_onto-append b [] xs

pub put-Edited :
    (s : FinshShell) (b a : List ℕ) (c k : ℕ) (h : Shows (text b a) s)
    → h.spare ≡ suc k
    → Edited (text (c ∷ b) a) s (insert_key s c)
unfolding insert_key
put-Edited s b a c k h e =
    let r = h.room in
    let u = rev_onto b [] in
    let zeros : List ℕ = replicate (suc (suc k)) 0 in
    let sized : length u ≡ length b = omega (arith, length-rev_onto b []) in
    let line : s.line ≡ u ++ (a ++ 0 ∷ zeros) =
      h.bytes
      ∙ ap (λ n. rev_onto b (a ++ replicate (suc (suc n)) 0)) e
      ∙ parted b (a ++ 0 ∷ zeros) in
    let put =
      put_in_at s u a zeros c line (h.cursor ∙ sym sized) (omega (arith, h.position, sized)) in
    let same : shortened s ≡ s =
      rw (lt→leb 128 s.line_position (omega (arith, h.position, e))) refl in
    rw (same, put, lt→leb 128 (next16 s.line_position) (omega (arith, h.position, e)))
      (
        record {
          spare = k;
          bytes = sym (parted b (c ∷ (a ++ zeros)));
          cursor = omega (arith, h.cursor, h.position);
          position = omega (arith, h.position);
          room = omega (arith, e);
          normal = h.normal;
        },
        record { entries = refl; count = refl; current = refl },
      )

-- Moving only the cursor.
moved-Edited :
    (s : FinshShell) (b a b' a' : List ℕ) (n : ℕ) (h : Shows (text b a) s)
    → rev_onto b' (a' ++ replicate (suc (suc h.spare)) 0)
      ≡ rev_onto b (a ++ replicate (suc (suc h.spare)) 0)
    → length b' + length a' ≡ length b + length a
    → n ≡ length b'
    → Edited (text b' a') s (some (record s { line_curpos = n }))
moved-Edited s b a b' a' n h same sized cur = (
  record {
    spare = h.spare;
    bytes = h.bytes ∙ sym same;
    cursor = cur;
    position = h.position ∙ sym sized;
    room = omega (arith, h.room);
    normal = h.normal;
  },
  record { entries = refl; count = refl; current = refl },
)

pub erase-Edited :
    (s : FinshShell) (b a : List ℕ) → Shows (text b a) s → Edited (erased b a) s (backspace_key s)
unfolding backspace_key
erase-Edited s [] a h = rw (ap (λ n. n == 0) h.cursor) (h, Keeps-refl s)
erase-Edited s (c ∷ b) a h =
    let u = rev_onto b [] in
    let r = h.room in
    let sized : length u ≡ length b = omega (arith, length-rev_onto b []) in
    let zeros : List ℕ = replicate (suc (suc h.spare)) 0 in
    let moved : FinshShell = record s {
      line_position = prev16 s.line_position;
      line_curpos = prev16 s.line_curpos;
    } in
    let line : s.line ≡ u ++ (c ∷ (a ++ zeros)) = h.bytes ∙ parted b (c ∷ (a ++ zeros)) in
    let shut =
      close_gap_at moved u a zeros c line (omega (arith, h.cursor, sized))
        (omega (arith, h.position, sized)) in
    rw (ne→== s.line_curpos 0 (omega (arith, h.cursor)), shut)
      (
        record {
          spare = suc h.spare;
          bytes = sym (parted b (a ++ 0 ∷ zeros));
          cursor = omega (arith, h.cursor);
          position = omega (arith, h.position);
          room = omega arith;
          normal = h.normal;
        },
        record { entries = refl; count = refl; current = refl },
      )

pub left-Edited :
    (s : FinshShell) (b a : List ℕ)
    → Shows (text b a) s
    → Edited (to_left b a) s (some (left_key s))
unfolding left_key
left-Edited s [] a h = rw (ap (λ n. n == 0) h.cursor) (h, Keeps-refl s)
left-Edited s (c ∷ b) a h = rw (ne→== s.line_curpos 0 (omega (arith, h.cursor))) (
    moved-Edited s (c ∷ b) a b (c ∷ a) (prev16 s.line_curpos) h refl (omega arith)
      (omega (arith, h.cursor, h.room)))

pub right-Edited :
    (s : FinshShell) (b a : List ℕ)
    → Shows (text b a) s
    → Edited (to_right b a) s (some (right_key s))
unfolding right_key
right-Edited s b [] h =
    rw (ge→ltb s.line_curpos s.line_position (omega (arith, h.cursor, h.position)))
      (h, Keeps-refl s)
right-Edited s b (c ∷ a) h =
    rw (lt→ltb s.line_curpos s.line_position (omega (arith, h.cursor, h.position))) (
      moved-Edited s b (c ∷ a) (c ∷ b) a (next16 s.line_curpos) h refl (omega arith)
        (omega (arith, h.cursor, h.room)))
