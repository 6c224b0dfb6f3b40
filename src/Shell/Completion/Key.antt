-- ===== src/Shell/Completion/Key.antt =====
-- The tab key, on the text that the line shows.
use motor_test.Base.{ℕ, zero, suc, ◌+◌, ◌-◌, ◌≤◌, ◌≡◌, refl, sym, ap, ◌∙◌, arith}
use motor_test.Base.{List, [], ◌∷◌, ◌++◌, All, length, length-append, some}
use motor_test.Base.Memory.{take, drop, replicate, length-take, length-replicate}
use motor_test.Base.Memory.Laws.{strlen-append}
use motor_test.Shell.{FinshShell}
use motor_test.Shell.Table.{FinshSyscall, names_of}
use motor_test.Shell.Keys.{tab_key}
use motor_test.Shell.Dispatch.{IsString}
use motor_test.Base.Memory.Laws.{take_all}
use motor_test.Shell.Safe.Tab.{IsShort}
use motor_test.Shell.Editor.{Text, text, Shows, Keeps, in_order, rev_onto}
use motor_test.Shell.Editor.Behind.{behind_text, behind_text-Shows}
use motor_test.Shell.Editor.Moves.{drop_more, length-rev_onto, rev_onto-append}
use motor_test.Shell.Completion.{matching, shared_all, complete_with, completion}
use motor_test.Shell.Completion.Tab.{Starts, Starts-length, matching-Starts, found_shared}
use motor_test.Shell.Completion.Line.{Within, over, matching-All, msh_auto_complete-completion}

-- A completion that fits the line.
pub record IsGood (prefix w : List ℕ) : Type 0 where
  pub long : length prefix ≤ length w
  pub short : length w ≤ 127
  pub string : IsString w

take-IsString : (k : ℕ) (xs : List ℕ) → IsString xs → IsString (take k xs)
take-IsString zero xs h = tt
take-IsString (suc k) [] h = tt
take-IsString (suc k) (x ∷ xs) h = (h.0, take-IsString k xs (h.1))

complete_with-IsGood :
    (prefix : List ℕ) (ms : List (List ℕ))
    → 1 ≤ length prefix
    → length prefix ≤ 127
    → IsString prefix
    → All (Starts prefix) ms
    → All IsString ms
    → All IsShort ms
    → IsGood prefix (complete_with prefix ms)
complete_with-IsGood prefix [] some_text fits h starts strings short = record {
  long = omega arith;
  short = fits;
  string = h;
}
complete_with-IsGood prefix (m ∷ ms) some_text fits h starts strings short =
    let found =
      found_shared prefix m ms (length m) some_text (starts.0) (starts.1)
        (Starts-length prefix m (starts.0)) (omega arith) in
    let w : take found.0 m ≡ shared_all m ms = found.2 ∙ ap (λ xs. shared_all xs ms) (take_all m) in
    let sized : length (shared_all m ms) ≡ found.0 =
      ap length (sym w) ∙ length-take found.0 m (found.4) in
    record {
      long = omega (arith, sized, found.3);
      short = omega (arith, sized, found.4, short.0);
      string = rw⁻¹ w (take-IsString found.0 m (strings.0));
    }

pub completion-IsGood :
    (prefix : List ℕ) (names : List (List ℕ))
    → 1 ≤ length prefix
    → length prefix ≤ 127
    → IsString prefix
    → All IsString names
    → All IsShort names
    → IsGood prefix (completion prefix names)
unfolding completion
completion-IsGood prefix names some_text fits h strings short =
    complete_with-IsGood prefix (matching prefix names) some_text fits h
      (matching-Starts prefix names) (matching-All IsString prefix names strings)
      (matching-All IsShort prefix names short)

drop-replicate : (j n : ℕ) → drop j (replicate n 0) ≡ replicate {A = ℕ} (n - j) 0
drop-replicate zero n = let e : n ≡ n - 0 = omega arith in ap (λ k. replicate {A = ℕ} k 0) e
drop-replicate (suc j) zero =
    let e : 0 ≡ 0 - suc j = omega arith in ap (λ k. replicate {A = ℕ} k 0) e
drop-replicate (suc j) (suc n) =
    let e : n - j ≡ suc n - suc j = omega arith in
    drop-replicate j n ∙ ap (λ k. replicate {A = ℕ} k 0) e

IsShort-Within :
    (n : ℕ) (names : List (List ℕ)) → 127 ≤ n → All IsShort names → All (Within n) names
IsShort-Within n [] l h = tt
IsShort-Within n (name ∷ names) l h =
    let first = h.0 in (omega arith, IsShort-Within n names l (h.1))

-- Written over the text at the front of a line of zeros.
over-text :
    (prefix w : List ℕ) (n m : ℕ)
    → length prefix + n ≡ length w + m
    → length prefix ≤ length w
    → over w (prefix ++ replicate n 0) ≡ w ++ replicate m 0
over-text prefix w n m e l =
    let j : length w ≡ length prefix + (length w - length prefix) = omega arith in
    let k : n - (length w - length prefix) ≡ m = omega arith in
    ap (w ++◌) (
      ap (λ i. drop i (prefix ++ replicate n 0)) j
      ∙ drop_more (length w - length prefix) prefix (replicate n 0)
      ∙ drop-replicate (length w - length prefix) n
      ∙ ap (λ i. replicate i 0) k)

-- A tab on a line with text, none of it 0, completes the text to what the names in the table that begin
-- with it have in common, and leaves the text as it is where no name does; the cursor stands behind it
-- then. The names are strings of at most 127 characters.
pub tab_key-completion :
    (commands : List FinshSyscall) (s : FinshShell) (t : Text)
    → Shows t s
    → 1 ≤ length (in_order t)
    → IsString (in_order t)
    → All IsString (names_of commands)
    → All IsShort (names_of commands)
    → (u : FinshShell) × (tab_key commands s ≡ some u)
      × Shows (text (rev_onto (completion (in_order t) (names_of commands)) []) []) u
      × Keeps s u
unfolding tab_key
tab_key-completion commands s t h some_text string strings short =
    let xs = in_order t in
    let names = names_of commands in
    let w = completion xs names in
    let r = h.room in
    let sized : length xs + h.spare ≡ 127 = omega (arith, length-rev_onto t.before t.after) in
    let good = completion-IsGood xs names some_text (omega arith) string strings short in
    let spare = 127 - length w in
    let line : s.line ≡ xs ++ 0 ∷ replicate (suc h.spare) 0 =
      h.bytes ∙ rev_onto-append t.before t.after (replicate (suc (suc h.spare)) 0) in
    let whole : length (xs ++ replicate (suc (suc h.spare)) 0) ≡ 129 = omega (
      arith,
      length-append xs (replicate (suc (suc h.spare)) 0),
      length-replicate {A = ℕ} (suc (suc h.spare)) 0,
    ) in
    let done =
      msh_auto_complete-completion names xs (replicate (suc h.spare) 0) some_text string (
        IsShort-Within (length (xs ++ replicate (suc (suc h.spare)) 0)) names (omega (arith, whole))
          short)
      ∙ ap some (
          over-text xs w (suc (suc h.spare)) (suc (suc spare)) (omega (arith, good.short))
            good.long) in
    let measured = strlen-append w (replicate (suc spare) 0) good.string in
    (
      behind_text s w,
      rw (line, done, measured) refl,
      behind_text-Shows s w h.normal good.short,
      record { entries = refl; count = refl; current = refl },
    )
