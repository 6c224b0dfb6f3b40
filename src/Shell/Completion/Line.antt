-- ===== src/Shell/Completion/Line.antt =====
-- The line after a tab.
use motor_test.Base.{ℕ, ◌≤◌, ◌≡◌, refl, sym, ap, ◌∙◌, arith, if_elim}
use motor_test.Base.{ne→==, le→leb}
use motor_test.Base.{List, [], ◌∷◌, ◌++◌, All, length, some}
use motor_test.Base.Memory.{take, drop, drop-append, length-take, memcpy}
use motor_test.Base.Memory.Laws.{strlen-append}
use motor_test.Shell.Complete.{nothing_found, write_name, msh_auto_complete}
use motor_test.Shell.Dispatch.{IsString}
use motor_test.Base.Memory.Laws.{take_all}
use motor_test.Shell.Completion.{
  starts_with, matching, shared_all, complete_with, completion, take_in_all, find_names-matching,
}
use motor_test.Shell.Completion.Tab.{
  Starts, Starts-length, matching-Starts, found_in, first_found, found_shared,
}

abbrev pub Within : ℕ → List ℕ → Type 0
Within n name = length name ≤ n

pub matching-All :
    (P : List ℕ → Type 0) (prefix : List ℕ) (names : List (List ℕ))
    → All P names
    → All P (matching prefix names)
matching-All P prefix [] h = tt
matching-All P prefix (name ∷ names) h =
    if_elim (All P) (starts_with prefix name) (λ p. (h.0, matching-All P prefix names (h.1)))
      (λ p. matching-All P prefix names (h.1))

-- The line with `w` written over its front.
abbrev pub over : List ℕ → List ℕ → List ℕ
over w line = w ++ drop (length w) line

written :
    (prefix z : List ℕ) (ms : List (List ℕ))
    → 1 ≤ length prefix
    → All (Starts prefix) ms
    → All (Within (length (prefix ++ 0 ∷ z))) ms
    → let found = take_in_all ms nothing_found in
      write_name (prefix ++ 0 ∷ z) found.min_length found.name_ptr
      ≡ some (over (complete_with prefix ms) (prefix ++ 0 ∷ z))
unfolding write_name memcpy
written prefix z [] some_text h fits = ap some (ap (prefix ++◌) (sym (drop-append prefix (0 ∷ z))))
written prefix z (m ∷ ms) some_text h fits =
    let line = prefix ++ 0 ∷ z in
    let found =
      found_shared prefix m ms (length m) some_text (h.0) (h.1) (Starts-length prefix m (h.0))
        (omega arith) in
    let k = found.0 in
    let all : take_in_all ms (take_in_all (m ∷ []) nothing_found) ≡ found_in m k =
      ap (take_in_all ms) (first_found m) ∙ found.1 in
    let w : take k m ≡ shared_all m ms = found.2 ∙ ap (λ xs. shared_all xs ms) (take_all m) in
    let sized : length (shared_all m ms) ≡ k = ap length (sym w) ∙ length-take k m (found.4) in
    rw
      (
        all,
        le→leb k (length m) (found.4),
        le→leb k (length line) (omega (arith, found.4, fits.0)),
        w,
        sized,
      )
      refl

-- On a line with text, at whose end a 0 stands, what the names that begin with the text have in common
-- is written over its front, where no name is longer than the buffer and the text has no 0 in it.
pub msh_auto_complete-completion :
    (names : List (List ℕ)) (prefix z : List ℕ)
    → 1 ≤ length prefix
    → IsString prefix
    → All (Within (length (prefix ++ 0 ∷ z))) names
    → msh_auto_complete names (prefix ++ 0 ∷ z)
      ≡ some (over (completion prefix names) (prefix ++ 0 ∷ z))
unfolding msh_auto_complete completion
msh_auto_complete-completion names [] z some_text h fits = absurd (omega arith)
msh_auto_complete-completion names (c ∷ cs) z some_text h fits =
    let prefix = c ∷ cs in
    rw
      (
        ne→== c 0 (h.0),
        strlen-append prefix z h,
        find_names-matching prefix (0 ∷ z) names nothing_found h,
      )
      (written prefix z (matching prefix names) some_text (matching-Starts prefix names)
        (matching-All (Within (length (prefix ++ 0 ∷ z))) prefix names fits))
