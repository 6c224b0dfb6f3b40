-- ===== src/Shell/Desk/Past.antt =====
-- A text comes back from the history.
use motor_test.Base.{ℕ, suc, ◌+◌, ◌-◌, ◌≤◌, ◌<◌, ◌≡◌, refl, sym, ap, ◌∙◌, arith, le→leb}
use motor_test.Base.{List, [], ◌∷◌, ◌++◌, map, length, length-append, get_or, some}
use mathlib.Core.List.{append_assoc}
use motor_test.Base.Memory.{take, drop, replicate, drop-append, length-replicate, memcpy}
use motor_test.Base.Memory.Laws.{
  strlen-append, replicate_snoc, take_all, All-get_or, get_or-front, length-map, get_or-map,
}
use motor_test.Shell.{FinshShell}
use motor_test.Shell.History.{recall}
use motor_test.Shell.Pushed.{get_elem?-some}
use motor_test.Shell.Editor.{Text, Shows, in_order}
use motor_test.Shell.Editor.Behind.{behind_text}
use motor_test.Shell.Editor.Moves.{length-rev_onto, rev_onto-append}
use motor_test.Shell.Recall.{line_ends, entry_sized}
use motor_test.Shell.Desk.{padded, IsLineText, Recalls}

pub length-padded : (xs : List ℕ) → length xs ≤ 128 → length (padded xs) ≡ 128
length-padded xs l = omega (
  arith,
  length-append xs (replicate (128 - length xs) 0),
  length-replicate {A = ℕ} (128 - length xs) 0,
)

padded_ends :
    (xs : List ℕ)
    → length xs ≤ 127
    → padded xs ++ 0 ∷ [] ≡ xs ++ replicate (suc (suc (127 - length xs))) 0
padded_ends xs l =
    let e : 128 - length xs ≡ suc (127 - length xs) = omega arith in
    append_assoc xs (replicate (128 - length xs) 0) (0 ∷ [])
    ∙ ap (xs ++◌) (sym (replicate_snoc (128 - length xs) 0) ∙ ap (λ n. replicate (suc n) 0) e)

-- The entries of the history, by the texts that they stand for.
pub entry_at :
    (past : List (List ℕ)) (current : ℕ) (s : FinshShell) (i : ℕ)
    → Recalls past current s
    → i < length past
    → (get_or s.cmd_history i [] ≡ padded (get_or past i [])) × IsLineText (get_or past i [])
entry_at past current s i h l = (
  ap (λ entries. get_or entries i []) h.entries
      ∙ get_or-front (map padded past) _ i [] (omega (arith, length-map padded past))
      ∙ get_or-map padded past i [] [] l,
  All-get_or IsLineText past i [] h.texts l,
)

memcpy-padded :
    (xs front : List ℕ)
    → length front ≡ 128
    → length xs ≤ 127
    → memcpy (front ++ 0 ∷ []) (padded xs) 128
      ≡ some (xs ++ replicate (suc (suc (127 - length xs))) 0)
unfolding memcpy
memcpy-padded xs front e l =
    let entry = length-padded xs (omega arith) in
    let whole : length (front ++ 0 ∷ []) ≡ 129 = omega (arith, e, length-append front (0 ∷ [])) in
    let all : take 128 (padded xs) ≡ padded xs =
      ap (λ n. take n (padded xs)) (sym entry) ∙ take_all (padded xs) in
    let rest : drop 128 (front ++ 0 ∷ []) ≡ 0 ∷ [] =
      ap (λ n. drop n (front ++ 0 ∷ [])) (sym e) ∙ drop-append front (0 ∷ []) in
    rw
      (
        le→leb 128 (length (padded xs)) (omega (arith, entry)),
        le→leb 128 (length (front ++ 0 ∷ [])) (omega (arith, whole)),
        all,
        rest,
      )
      (ap some (padded_ends xs l))

-- Whatever text the line shows, an entry replaces it.
pub recall_lem :
    (s : FinshShell) (t : Text) (u : FinshShell) (xs : List ℕ)
    → Shows t s
    → u.line ≡ s.line
    → get_or u.cmd_history u.current_history [] ≡ padded xs
    → IsLineText xs
    → recall u ≡ some (behind_text u xs)
unfolding recall
recall_lem s t u xs h same entry good =
    let old = in_order t in
    let r = h.room in
    let sized : length old + h.spare ≡ 127 = omega (arith, length-rev_onto t.before t.after) in
    let line : s.line ≡ old ++ replicate (suc (suc h.spare)) 0 =
      h.bytes ∙ rev_onto-append t.before t.after (replicate (suc (suc h.spare)) 0) in
    let position : s.line_position ≡ length old =
      h.position ∙ sym (length-rev_onto t.before t.after) in
    let ends = line_ends s old h.spare line sized position in
    let front = entry_sized s old h.spare line sized position in
    let found =
      get_elem?-some u.cmd_history u.current_history (padded xs) entry
        (omega (arith, length-padded xs (omega (arith, good.1)))) in
    rw
      (
        found,
        same,
        ends,
        memcpy-padded xs _ front (good.1),
        strlen-append xs (replicate (suc (127 - length xs)) 0) (good.0),
      )
      refl
