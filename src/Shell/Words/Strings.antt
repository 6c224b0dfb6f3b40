-- ===== src/Shell/Words/Strings.antt =====
-- The strings in the buffer of a command, and that what is left of a text is shorter and without zeros.
use motor_test.Base.{ℕ, suc, ◌+◌, ◌≤◌, ◌<◌, ◌≡◌, refl, sym, ap, ap₂, ◌∙◌, arith, ◌==◌, if_elim}
use motor_test.Base.{ne→==, ◌&&◌, false}
use motor_test.Base.{List, [], ◌∷◌, ◌++◌, length, length-append}
use mathlib.Core.List.{append_assoc}
use motor_test.Base.Memory.{drop, drop-append}
use motor_test.Shell.Names.{IsString}
use motor_test.Shell.Split.{is_blank, Cut}
use motor_test.Shell.Split.{until_zero, string_at, strings_of}
use motor_test.Shell.Words.{word, behind_word, str, behind_str, trim}
use motor_test.Shell.Words.Turn.{length-trim, length-behind_word}

until_zero-append :
    (w rest : List ℕ) → IsString w → until_zero rest ≡ [] → until_zero (w ++ rest) ≡ w
until_zero-append [] rest h e = e
until_zero-append (c ∷ w) rest h e = rw (ne→== c 0 (h.0), until_zero-append w rest (h.1) e) refl

pub word-IsString : (text : List ℕ) → IsString text → IsString (word text)
word-IsString [] h = tt
word-IsString (c ∷ cs) h =
    if_elim IsString (is_blank c) (λ p. tt) (λ p. (h.0, word-IsString cs (h.1)))

pub trim-IsString : (text : List ℕ) → IsString text → IsString (trim text)
trim-IsString [] h = tt
trim-IsString (c ∷ cs) h = if_elim IsString (is_blank c) (λ p. trim-IsString cs (h.1)) (λ p. h)

pub behind_word-IsString : (text : List ℕ) → IsString text → IsString (behind_word text)
behind_word-IsString [] h = tt
behind_word-IsString (c ∷ cs) h =
    if_elim IsString (is_blank c) (λ p. h) (λ p. behind_word-IsString cs (h.1))

pub str-IsString : (text : List ℕ) → IsString text → IsString (str text)
str-IsString [] h = tt
str-IsString (c ∷ []) h = if_elim IsString (c == b'"') (λ p. tt) (λ p. h)
str-IsString (c ∷ d ∷ cs) h =
    if_elim IsString (c == b'"') (λ p. tt)
      (λ p.
        if_elim IsString ((c == b'\\') && (d == b'"'))
          (λ q. (h.0, (h.1.0, str-IsString cs (h.1.1)))) (λ q. (h.0, str-IsString (d ∷ cs) (h.1))))

pub behind_str-IsString : (text : List ℕ) → IsString text → IsString (behind_str text)
behind_str-IsString [] h = tt
behind_str-IsString (c ∷ []) h = if_elim IsString (c == b'"') (λ p. h) (λ p. tt)
behind_str-IsString (c ∷ d ∷ cs) h =
    if_elim IsString (c == b'"') (λ p. h)
      (λ p.
        if_elim IsString ((c == b'\\') && (d == b'"')) (λ q. behind_str-IsString cs (h.1.1))
          (λ q. behind_str-IsString (d ∷ cs) (h.1)))

abbrev NoLonger : List ℕ → List ℕ → Type 0
NoLonger ys xs = length xs ≤ length ys

pub length-behind_str : (text : List ℕ) → length (behind_str text) ≤ length text
length-behind_str [] = omega arith
length-behind_str (c ∷ []) =
    if_elim (NoLonger (c ∷ [])) (c == b'"') (λ p. omega arith) (λ p. omega arith)
length-behind_str (c ∷ d ∷ cs) =
    if_elim (NoLonger (c ∷ d ∷ cs)) (c == b'"') (λ p. omega arith)
      (λ p.
        if_elim (NoLonger (c ∷ d ∷ cs)) ((c == b'\\') && (d == b'"'))
          (λ q. omega (arith, length-behind_str cs))
          (λ q. omega (arith, length-behind_str (d ∷ cs))))

-- The string at the start of a word that a 0 ends.
string_at_word :
    (pre zeros w rest : List ℕ)
    → IsString w
    → until_zero rest ≡ []
    → string_at (pre ++ (zeros ++ (w ++ rest))) (length pre + length zeros) ≡ w
string_at_word pre zeros w rest h e =
    ap₂ (λ n bytes. until_zero (drop n bytes)) (sym (length-append pre zeros))
      (sym (append_assoc pre zeros (w ++ rest)))
    ∙ ap until_zero (drop-append (pre ++ zeros) (w ++ rest))
    ∙ until_zero-append w rest h e

-- What is left behind a word is shorter.
pub shorter :
    (fuel : ℕ) (text cs : List ℕ) (c : ℕ)
    → length text < suc fuel
    → trim text ≡ c ∷ cs
    → is_blank c ≡ false
    → length (behind_word (c ∷ cs)) < fuel
shorter fuel text cs c l e p =
    let trimmed : suc (length cs) ≡ length (trim text) = sym (ap length e) in
    rw p (omega (arith, trimmed, length-trim text, length-behind_word cs))

-- The strings of a word and of those behind it.
pub strings_of_word :
    (pre zeros w : List ℕ) (further : Cut)
    → IsString w
    → until_zero further.bytes ≡ []
    → strings_of
        (pre ++ (zeros ++ (w ++ further.bytes)))
        ((length pre + length zeros) ∷ further.argv)
      ≡ w ∷ strings_of (((pre ++ zeros) ++ w) ++ further.bytes) further.argv
strings_of_word pre zeros w further plain e =
    let all_in_one : pre ++ (zeros ++ (w ++ further.bytes))
        ≡ ((pre ++ zeros) ++ w) ++ further.bytes =
      sym (append_assoc pre zeros (w ++ further.bytes))
      ∙ sym (append_assoc (pre ++ zeros) w further.bytes) in
    ap₂ (λ first others. first ∷ others) (string_at_word pre zeros w further.bytes plain e)
      (ap (λ bytes. strings_of bytes further.argv) all_in_one)
