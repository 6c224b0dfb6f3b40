-- ===== src/Shell/Words/Turn.antt =====
-- One turn of the loop of `msh_split`, in terms of what it passes over.
use motor_test.Base.{ℕ, zero, suc, ◌+◌, ◌-◌, ◌≤◌, ◌<◌, ◌≡◌, ◌≢◌, refl, ap, arith, ◌==◌, if_elim}
use motor_test.Base.{ne→==, lt→leb, false, if◌then◌else◌}
use motor_test.Base.{List, [], ◌∷◌, ◌++◌, length}
use motor_test.Base.Memory.{replicate}
use motor_test.Shell.Names.{tail_of}
use motor_test.Shell.Split.{is_blank, Cut, behind, word_at, stop, split}
use motor_test.Shell.Words.{
  word, behind_word, trim, lead, str, behind_str, strip_lem, skip_word_lem, skip_string_lem,
}

pub length-trim : (text : List ℕ) → length (trim text) ≤ length text
length-trim [] = omega arith
length-trim (c ∷ cs) =
    if_elim (λ (xs : List ℕ). length xs ≤ suc (length cs)) (is_blank c)
      (λ p. omega (arith, length-trim cs)) (λ p. omega arith)

pub length-behind_word : (text : List ℕ) → length (behind_word text) ≤ length text
length-behind_word [] = omega arith
length-behind_word (c ∷ cs) =
    if_elim (λ (xs : List ℕ). length xs ≤ suc (length cs)) (is_blank c) (λ p. omega arith)
      (λ p. omega (arith, length-behind_word cs))

nil≢cons : {c : ℕ} {cs : List ℕ} → [] ≢ c ∷ cs
nil≢cons e = absurd (cc)

-- The test for the end of the command behind a word makes no difference.
goes_on :
    (fuel : ℕ) (r tail : List ℕ) (position argc : ℕ)
    → (if length r == 0 then stop (r ++ tail) else split fuel (length r) (r ++ tail) position argc)
      ≡ split fuel (length r) (r ++ tail) position argc
unfolding split
goes_on zero [] tail position argc = refl
goes_on (suc fuel) [] tail position argc = refl
goes_on fuel (x ∷ r) tail position argc = rw (ne→== (length (x ∷ r)) 0 (omega arith)) refl

-- One turn that finds a word without a quote before it.
pub split_plain :
    (fuel : ℕ) (text tail : List ℕ) (position argc c : ℕ) (cs : List ℕ)
    → argc < 8
    → trim text ≡ c ∷ cs
    → is_blank c ≡ false
    → c ≢ b'"'
    → let w = word (c ∷ cs) in
      let zeros : List ℕ = replicate (lead text) 0 in
      let start = position + length zeros in
      split (suc fuel) (length text) (text ++ tail) position argc
      ≡ behind zeros (
          word_at start (
            behind w (
              split fuel
                (length (behind_word (c ∷ cs)))
                (behind_word (c ∷ cs) ++ tail)
                (start + length w)
                (argc + 1))))
unfolding split
split_plain fuel [] tail position argc c cs l e p q = absurd (nil≢cons e)
split_plain fuel (d ∷ ds) tail position argc c cs l e p q =
    let zeros : List ℕ = replicate (lead (d ∷ ds)) 0 in
    let start = position + length zeros in
    rw
      (
        lt→leb 8 argc l,
        strip_lem (d ∷ ds) tail,
        e,
        ne→== c 34 q,
        skip_word_lem (c ∷ cs) tail,
        ne→== (length (c ∷ cs)) 0 (omega arith),
      )
      (ap (λ further. behind zeros (word_at start (behind (word (c ∷ cs)) further)))
        (goes_on fuel (behind_word (c ∷ cs)) tail _ _))

-- What is left behind a string, with its closing quote.
abbrev pub behind_string : List ℕ → List ℕ
behind_string cs = tail_of (behind_str cs)

-- The bytes behind a string: a 0 in place of the quote, and the loop goes on; or the end of the command.
abbrev pub string_end : ℕ → List ℕ → List ℕ → ℕ → ℕ → Cut
string_end fuel [] tail position argc = stop tail
string_end fuel (c ∷ cs) tail position argc =
    behind (0 ∷ []) (split fuel (length cs) (cs ++ tail) position argc)

-- One turn that finds a string between quotes.
pub split_quoted :
    (fuel : ℕ) (text z : List ℕ) (position argc : ℕ) (cs : List ℕ)
    → argc < 8
    → trim text ≡ b'"' ∷ cs
    → let zeros : List ℕ = replicate (lead text) 0 in
      let start = position + length zeros in
      split (suc fuel) (length text) (text ++ 0 ∷ z) position argc
      ≡ behind zeros (
          word_at (start + 1) (
            behind (b'"' ∷ str cs) (
              string_end fuel
                (behind_str cs)
                (0 ∷ z)
                (start + 1 + length (str cs) + 1)
                (argc + 1))))
unfolding split
split_quoted fuel [] z position argc cs l e = absurd (nil≢cons e)
split_quoted fuel (d ∷ ds) z position argc cs l e =
    let zeros : List ℕ = replicate (lead (d ∷ ds)) 0 in
    let start = position + length zeros in
    let one_less : suc (length cs) - 1 ≡ length cs = omega arith in
    rw
      (
        lt→leb 8 argc l,
        strip_lem (d ∷ ds) (0 ∷ z),
        e,
        one_less,
        skip_string_lem cs z,
        ne→== (length (b'"' ∷ cs)) 0 (omega arith),
      )
      (ap (λ further. behind zeros (word_at (start + 1) (behind (b'"' ∷ str cs) further)))
        (ended (behind_str cs) _))
  where
    ended :
        (r : List ℕ) (n : ℕ)
        → (if length r == 0
            then stop (r ++ 0 ∷ z)
            else behind (0 ∷ []) (split fuel (length r - 1) (tail_of (r ++ 0 ∷ z)) n (argc + 1)))
          ≡ string_end fuel r (0 ∷ z) n (argc + 1)
    ended [] n = refl
    ended (x ∷ r) n =
        let one_less : suc (length r) - 1 ≡ length r = omega arith in
        rw (ne→== (length (x ∷ r)) 0 (omega arith), one_less) refl
