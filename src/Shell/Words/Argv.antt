-- ===== src/Shell/Words/Argv.antt =====
-- `msh_split` finds the words of a command line.
use motor_test.Base.{
  ℕ, zero, suc, ◌+◌, ◌-◌, ◌≤◌, ◌<◌, ◌≡◌, refl, sym, ap, ◌≢◌, ap₂, ◌∙◌, arith, leb, ◌==◌, if_elim,
}
use motor_test.Base.{
  ◌⊎◌, ==_true, ==_false, le→leb, leb→le, leb→gt, true, false, Bool-cases, inl, inr,
}
use motor_test.Base.{List, [], ◌∷◌, ◌++◌, length, length-append}
use mathlib.Core.List.{append_assoc}
use motor_test.Base.Memory.{take, replicate}
use motor_test.Shell.Names.{head_or, tail_of, IsString}
use motor_test.Shell.Split.{is_blank, strip, Cut, split}
use motor_test.Shell.Split.{until_zero, strings_of}
use motor_test.Shell.Words.{
  fields, words, word, behind_word, str, behind_str, trim, lead, strip_lem, words-trim, words_plain,
  words_quoted, trim-cases,
}
use motor_test.Shell.Words.Turn.{length-trim, string_end, split_plain, split_quoted}
use mathlib.Core.Path.{subst}
use motor_test.Shell.Words.Strings.{
  trim-IsString, word-IsString, behind_word-IsString, str-IsString, behind_str-IsString,
  length-behind_str, shorter, strings_of_word,
}

-- Behind a word stands a blank, or nothing.
behind_word-cases :
    (text : List ℕ)
    → (behind_word text ≡ [])
      ⊎ ((b : ℕ) × (bs : List ℕ) × (behind_word text ≡ b ∷ bs) × (is_blank b ≡ true))
behind_word-cases [] = inl refl
behind_word-cases (c ∷ cs) = elim (Bool-cases (is_blank c)) [
  | inl p ↦ inr (c, cs, rw p refl, p)
  | inr p ↦ rw p (behind_word-cases cs)
]

abbrev StartsWithZero : Cut → Type 0
StartsWithZero c = until_zero c.bytes ≡ []

-- A blank is overwritten, and so is nothing but the end of the command already a 0.
blank-StartsWithZero :
    (fuel : ℕ) (b : ℕ) (bs tail : List ℕ) (position argc : ℕ)
    → is_blank b ≡ true
    → StartsWithZero (split (suc fuel) (suc (length bs)) (b ∷ bs ++ tail) position argc)
unfolding split strip
blank-StartsWithZero fuel b bs tail position argc p = rw p (
    if_elim StartsWithZero (leb 8 argc) (λ e. refl)
      (λ e.
        if_elim StartsWithZero ((strip (length bs) (bs ++ tail)).left == 0) (λ e. refl)
          (λ e.
            if_elim StartsWithZero (head_or (strip (length bs) (bs ++ tail)).rest == b'"')
              (λ e. refl) (λ e. refl))))

behind-StartsWithZero :
    (fuel : ℕ) (text z : List ℕ) (position argc : ℕ)
    → length (behind_word text) < fuel
    → let r = behind_word text in StartsWithZero (split fuel (length r) (r ++ 0 ∷ z) position argc)
unfolding split
behind-StartsWithZero zero text z position argc l = absurd (omega arith)
behind-StartsWithZero (suc fuel) text z position argc l = elim (behind_word-cases text) [
  | inl e ↦ rw e refl
  | inr (b, bs, e, p) ↦ rw e (blank-StartsWithZero fuel b bs (0 ∷ z) position argc p)
]

take_nothing : (n : ℕ) → take {A = List ℕ} n [] ≡ []
take_nothing zero = refl
take_nothing (suc n) = refl

pub no_words : (text : List ℕ) → trim text ≡ [] → words text ≡ []
unfolding words fields
no_words text e = words-trim text ∙ ap words e

-- No word is found where eight are already, or where only blanks are left.
split_stops :
    (fuel : ℕ) (text tail : List ℕ) (position argc : ℕ)
    → (8 ≤ argc) ⊎ (trim text ≡ [])
    → (split fuel (length text) (text ++ tail) position argc).argv ≡ []
unfolding split
split_stops zero text tail position argc h = refl
split_stops (suc fuel) [] tail position argc h = refl
split_stops (suc fuel) (d ∷ ds) tail position argc (inl l) = rw (le→leb 8 argc l) refl
split_stops (suc fuel) (d ∷ ds) tail position argc (inr e) =
    rw (strip_lem (d ∷ ds) tail, e)
      (if_elim (λ (c : Cut). c.argv ≡ []) (leb 8 argc) (λ full. refl) (λ free. refl))

-- What the loop finds on a shorter text, behind any bytes.
abbrev Finds : ℕ → Type 0
Finds fuel =
    (text z pre : List ℕ) (argc : ℕ)
    → length text < fuel
    → IsString text
    → let cut = split fuel (length text) (text ++ 0 ∷ z) (length pre) argc in
      strings_of (pre ++ cut.bytes) cut.argv ≡ take (8 - argc) (words text)

-- The same at a position that is the number of bytes before.
found_at :
    (fuel : ℕ) (text z pre : List ℕ) (position argc : ℕ)
    → Finds fuel
    → length pre ≡ position
    → length text < fuel
    → IsString text
    → let cut = split fuel (length text) (text ++ 0 ∷ z) position argc in
      strings_of (pre ++ cut.bytes) cut.argv ≡ take (8 - argc) (words text)
found_at fuel text z pre position argc finds e l h =
    subst
      (λ (n : ℕ).
        let cut = split fuel (length text) (text ++ 0 ∷ z) n argc in
        strings_of (pre ++ cut.bytes) cut.argv ≡ take (8 - argc) (words text))
      e (finds text z pre argc l h)

found_plain :
    (fuel : ℕ) (text z pre : List ℕ) (argc c : ℕ) (cs : List ℕ)
    → Finds fuel
    → length text < suc fuel
    → argc < 8
    → trim text ≡ c ∷ cs
    → is_blank c ≡ false
    → c ≢ b'"'
    → IsString (c ∷ cs)
    → let cut = split (suc fuel) (length text) (text ++ 0 ∷ z) (length pre) argc in
      strings_of (pre ++ cut.bytes) cut.argv ≡ take (8 - argc) (words text)
found_plain fuel text z pre argc c cs finds l free e p q plain =
    let r = behind_word (c ∷ cs) in
    let w = word (c ∷ cs) in
    let zeros : List ℕ = replicate (lead text) 0 in
    let start = length pre + length zeros in
    let less : length r < fuel = shorter fuel text cs c l e p in
    let further = split fuel (length r) (r ++ 0 ∷ z) (start + length w) (argc + 1) in
    let before = (pre ++ zeros) ++ w in
    let sized : length before ≡ start + length w =
      omega (arith, length-append (pre ++ zeros) w, length-append pre zeros) in
    let count : 8 - argc ≡ suc (8 - (argc + 1)) = omega arith in
    let zero_behind = behind-StartsWithZero fuel (c ∷ cs) z (start + length w) (argc + 1) less in
    let rest =
      found_at fuel r z before (start + length w) (argc + 1) finds sized less
        (behind_word-IsString (c ∷ cs) plain) in
    rw
      (
        split_plain fuel text (0 ∷ z) (length pre) argc c cs free e p q,
        words-trim text ∙ ap words e ∙ words_plain c cs p q,
        count,
      )
      (strings_of_word pre zeros w further (word-IsString (c ∷ cs) plain) zero_behind
        ∙ ap (w ∷◌) rest)

-- Behind a string the loop goes on after its quote, or the command is at its end.
found_behind :
    (fuel : ℕ) (r z before : List ℕ) (position argc : ℕ)
    → Finds fuel
    → length before + 1 ≡ position
    → length r < fuel
    → IsString r
    → let cut = string_end fuel r (0 ∷ z) position argc in
      strings_of (before ++ cut.bytes) cut.argv ≡ take (8 - argc) (words (tail_of r))
found_behind fuel [] z before position argc finds e l h =
    sym (unfold words fields in take_nothing (8 - argc))
found_behind fuel (q ∷ r) z before position argc finds e l h =
    let further = split fuel (length r) (r ++ 0 ∷ z) position argc in
    let sized : length (before ++ 0 ∷ []) ≡ position =
      omega (arith, length-append before (0 ∷ [])) in
    ap (λ bytes. strings_of bytes further.argv) (sym (append_assoc before (0 ∷ []) further.bytes))
    ∙ found_at fuel r z (before ++ 0 ∷ []) position argc finds sized (omega arith) (h.1)

string_end-StartsWithZero :
    (fuel : ℕ) (r z : List ℕ) (position argc : ℕ)
    → StartsWithZero (string_end fuel r (0 ∷ z) position argc)
string_end-StartsWithZero fuel [] z position argc = refl
string_end-StartsWithZero fuel (c ∷ cs) z position argc = refl

found_quoted :
    (fuel : ℕ) (text z pre : List ℕ) (argc : ℕ) (cs : List ℕ)
    → Finds fuel
    → length text < suc fuel
    → argc < 8
    → trim text ≡ b'"' ∷ cs
    → IsString cs
    → let cut = split (suc fuel) (length text) (text ++ 0 ∷ z) (length pre) argc in
      strings_of (pre ++ cut.bytes) cut.argv ≡ take (8 - argc) (words text)
found_quoted fuel text z pre argc cs finds l free e string =
    let r = behind_str cs in
    let w = str cs in
    let zeros : List ℕ = replicate (lead text) 0 in
    let start = length pre + length zeros in
    let opened = zeros ++ b'"' ∷ [] in
    let further = string_end fuel r (0 ∷ z) (start + 1 + length w + 1) (argc + 1) in
    let before = (pre ++ opened) ++ w in
    let behind_quote : length pre + length opened ≡ start + 1 =
      omega (arith, length-append zeros (b'"' ∷ [])) in
    let sized : length before + 1 ≡ start + 1 + length w + 1 =
      omega (arith, length-append (pre ++ opened) w, length-append pre opened, behind_quote) in
    let trimmed : suc (length cs) ≡ length (trim text) = sym (ap length e) in
    let less : length r < fuel = omega (arith, trimmed, length-trim text, length-behind_str cs) in
    let count : 8 - argc ≡ suc (8 - (argc + 1)) = omega arith in
    let bytes : zeros ++ (b'"' ∷ (w ++ further.bytes)) ≡ opened ++ (w ++ further.bytes) =
      sym (append_assoc zeros (b'"' ∷ []) (w ++ further.bytes)) in
    let rest =
      found_behind fuel r z before (start + 1 + length w + 1) (argc + 1) finds sized less
        (behind_str-IsString cs string) in
    rw
      (
        split_quoted fuel text z (length pre) argc cs free e,
        words-trim text ∙ ap words e ∙ words_quoted cs,
        count,
      )
      (ap₂ (λ xs n. strings_of (pre ++ xs) (n ∷ further.argv)) bytes (sym behind_quote)
        ∙ strings_of_word pre opened w further (str-IsString cs string)
            (string_end-StartsWithZero fuel r z (start + 1 + length w + 1) (argc + 1))
        ∙ ap (w ∷◌) rest)

pub split-words : (fuel : ℕ) → Finds fuel
split-words zero text z pre argc l h = absurd (omega arith)
split-words (suc fuel) text z pre argc l h = elim (Bool-cases (leb 8 argc)) [
  | inl full ↦
      let none_left : 8 - argc ≡ 0 = omega (arith, leb→le _ _ full) in
      rw (split_stops (suc fuel) text (0 ∷ z) (length pre) argc (inl (leb→le _ _ full)), none_left)
        refl
  | inr free ↦ elim (trim-cases text) [
    | inl e ↦
        rw (split_stops (suc fuel) text (0 ∷ z) (length pre) argc (inr e), no_words text e)
          (sym (take_nothing (8 - argc)))
    | inr (c, cs, e, p) ↦
        let room = leb→gt _ _ free in
        let string : IsString (c ∷ cs) = subst IsString e (trim-IsString text h) in
        elim (Bool-cases (c == b'"')) [
          | inl q ↦
              let opens = e ∙ ap (λ b. b ∷ cs) (==_true c b'"' q) in
              found_quoted fuel text z pre argc cs (split-words fuel) l room opens (string.1)
          | inr q ↦
              found_plain fuel text z pre argc c cs (split-words fuel) l room e p
                (==_false c b'"' q) string
        ]
  ]
]
