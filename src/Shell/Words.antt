-- ===== src/Shell/Words.antt =====
-- The words of a command line, by a definition that has no buffer, and what the loops of `msh_split` do.
pub mod Turn
pub mod Strings
pub mod Argv
pub mod Room
use motor_test.Base.{
  ℕ, zero, suc, ◌+◌, ◌-◌, ◌≤◌, ◌<◌, ◌≡◌, ◌≢◌, refl, sym, ap, ap₂, ◌∙◌, arith, ◌==◌, if_elim,
}
use motor_test.Base.{
  ◌⊎◌, ne→==, eq→==, ==_true, ==_false, true, false, Bool, Bool-cases, inl, inr, if◌then◌else◌,
  ◌||◌, ◌&&◌,
}
use motor_test.Base.{List, [], ◌∷◌, ◌++◌, All, length}
use motor_test.Base.Memory.{replicate}
use motor_test.Shell.Names.{head_or, tail_of, NonZero, IsString}
use motor_test.Shell.Split.{is_blank, Passed, strip, skip_word, skip_string}

-- Where a reader of a line stands: between the words, in a word that a blank ends, in one that a quote
-- ends, and there behind a backslash.
pub data Mode : Type 0 where
  between in_word in_string escaped : Mode

-- The word that the reader is in, as far as it goes on, and the words behind it. Between quotes a blank
-- is a character like others, and so is a quote behind a backslash; the backslash stays.
unfoldable pub fields : Mode → List ℕ → List ℕ × List (List ℕ)
fields m [] = ([], [])
fields between (c ∷ cs) =
    let skipped = fields between cs in
    let string = fields in_string cs in
    let further = fields in_word cs in
    if is_blank c
    then ([], skipped.1)
    else if c == b'"'
    then ([], string.0 ∷ string.1)
    else ([], (c ∷ further.0) ∷ further.1)
fields in_word (c ∷ cs) =
    let skipped = fields between cs in
    let further = fields in_word cs in
    if is_blank c then ([], skipped.1) else (c ∷ further.0, further.1)
fields in_string (c ∷ cs) =
    let behind = fields between cs in
    let further = fields in_string cs in
    let slashed = fields escaped cs in
    if c == b'"'
    then ([], behind.1)
    else if c == b'\\'
    then (c ∷ slashed.0, slashed.1)
    else (c ∷ further.0, further.1)
fields escaped (c ∷ cs) =
    let further = fields in_string cs in
    let slashed = fields escaped cs in
    if c == b'\\' then (c ∷ slashed.0, slashed.1) else (c ∷ further.0, further.1)

unfoldable pub words : List ℕ → List (List ℕ)
unfolding fields
words text = (fields between text).1

abbrev pub lead : List ℕ → ℕ
lead [] = 0
lead (c ∷ cs) = let further = lead cs in if is_blank c then suc further else 0

abbrev pub trim : List ℕ → List ℕ
trim [] = []
trim (c ∷ cs) = let further = trim cs in if is_blank c then further else c ∷ cs

abbrev pub word : List ℕ → List ℕ
word [] = []
word (c ∷ cs) = let further = word cs in if is_blank c then [] else c ∷ further

abbrev pub behind_word : List ℕ → List ℕ
behind_word [] = []
behind_word (c ∷ cs) = let further = behind_word cs in if is_blank c then c ∷ cs else further

pub strip_lem :
    (text tail : List ℕ)
    → strip (length text) (text ++ tail) ≡ record {
      bytes = replicate (lead text) 0;
      left = length (trim text);
      rest = trim text ++ tail;
    }
unfolding strip
strip_lem [] tail = refl
strip_lem (c ∷ cs) tail = elim (Bool-cases (is_blank c)) [
  | inl p ↦ rw (p, strip_lem cs tail) refl
  | inr p ↦ rw p refl
]

skip_word_lem :
    (text tail : List ℕ)
    → skip_word (length text) (text ++ tail) ≡ record {
      bytes = word text;
      left = length (behind_word text);
      rest = behind_word text ++ tail;
    }
unfolding skip_word
skip_word_lem [] tail = refl
skip_word_lem (c ∷ cs) tail = elim (Bool-cases (is_blank c)) [
  | inl p ↦ rw p refl
  | inr p ↦ rw (p, skip_word_lem cs tail) refl
]

-- What stands before the quote that ends a string, and from that quote on.
abbrev pub str : List ℕ → List ℕ
str [] = []
str (c ∷ []) = if c == b'"' then [] else c ∷ []
str (c ∷ d ∷ cs) =
    let one = str (d ∷ cs) in
    let two = str cs in
    if c == b'"' then [] else if (c == b'\\') && (d == b'"') then c ∷ d ∷ two else c ∷ one

abbrev pub behind_str : List ℕ → List ℕ
behind_str [] = []
behind_str (c ∷ []) = if c == b'"' then c ∷ [] else []
behind_str (c ∷ d ∷ cs) =
    let one = behind_str (d ∷ cs) in
    let two = behind_str cs in
    if c == b'"' then c ∷ d ∷ cs else if (c == b'\\') && (d == b'"') then two else one

pub skip_string_lem :
    (text z : List ℕ)
    → skip_string (length text) (text ++ 0 ∷ z) ≡ record {
      bytes = str text;
      left = length (behind_str text);
      rest = behind_str text ++ 0 ∷ z;
    }
unfolding skip_string
skip_string_lem [] z = refl
skip_string_lem (c ∷ []) z = elim (Bool-cases (c == b'"')) [
  | inl p ↦ rw p refl
  | inr p ↦ elim (Bool-cases (c == b'\\')) [ inl q ↦ rw (p, q) refl | inr q ↦ rw (p, q) refl ]
]
skip_string_lem (c ∷ d ∷ cs) z = elim (Bool-cases (c == b'"')) [
  | inl p ↦ rw p refl
  | inr p ↦ elim (Bool-cases ((c == b'\\') && (d == b'"'))) [
    | inl q ↦ rw (p, q, skip_string_lem cs z) refl
    | inr q ↦ rw (p, q, skip_string_lem (d ∷ cs) z) refl
  ]
]

words_blank : (c : ℕ) (cs : List ℕ) → is_blank c ≡ true → words (c ∷ cs) ≡ words cs
unfolding words fields
words_blank c cs p = rw (words, p) refl

-- The reader between words passes over blanks.
pub words-trim : (text : List ℕ) → words text ≡ words (trim text)
words-trim [] = refl
words-trim (c ∷ cs) = elim (Bool-cases (is_blank c)) [
  | inl p ↦ rw p (words_blank c cs p ∙ words-trim cs)
  | inr p ↦ rw p refl
]

fields_ended :
    (c : ℕ) (cs : List ℕ) → is_blank c ≡ true → fields in_word (c ∷ cs) ≡ ([], words (c ∷ cs))
unfolding words fields
fields_ended c cs p = rw (words, p) refl

fields_on :
    (c : ℕ) (cs : List ℕ)
    → is_blank c ≡ false
    → fields in_word (c ∷ cs) ≡ (c ∷ (fields in_word cs).0, (fields in_word cs).1)
unfolding fields
fields_on c cs p = rw p refl

fields-word : (text : List ℕ) → fields in_word text ≡ (word text, words (behind_word text))
fields-word [] = unfold fields words in refl
fields-word (c ∷ cs) = elim (Bool-cases (is_blank c)) [
  | inl p ↦ rw p (fields_ended c cs p)
  | inr p ↦
      rw p (fields_on c cs p ∙ ap (λ (f : List ℕ × List (List ℕ)). (c ∷ f.0, f.1)) (fields-word cs))
]

-- Behind a backslash only a quote is read otherwise.
fields-escaped :
    (d : ℕ) (cs : List ℕ)
    → (d == b'"') ≡ false
    → fields escaped (d ∷ cs) ≡ fields in_string (d ∷ cs)
unfolding fields
fields-escaped d cs e = rw e refl

fields-escaped_quote :
    (d : ℕ) (cs : List ℕ)
    → d ≡ b'"'
    → fields escaped (d ∷ cs) ≡ (d ∷ (fields in_string cs).0, (fields in_string cs).1)
unfolding fields
fields-escaped_quote d cs e = rw (ne→== d b'\\' (λ q. omega arith)) refl

string_closed :
    (c : ℕ) (cs : List ℕ) → (c == b'"') ≡ true → fields in_string (c ∷ cs) ≡ ([], words cs)
unfolding words fields
string_closed c cs p = rw p refl

string_slashed :
    (c : ℕ) (cs : List ℕ)
    → (c == b'"') ≡ false
    → (c == b'\\') ≡ true
    → fields in_string (c ∷ cs) ≡ (c ∷ (fields escaped cs).0, (fields escaped cs).1)
unfolding fields
string_slashed c cs p q = rw (p, q) refl

string_on :
    (c : ℕ) (cs : List ℕ)
    → (c == b'"') ≡ false
    → (c == b'\\') ≡ false
    → fields in_string (c ∷ cs) ≡ (c ∷ (fields in_string cs).0, (fields in_string cs).1)
unfolding fields
string_on c cs p q = rw (p, q) refl

abbrev with_byte : ℕ → List ℕ × List (List ℕ) → List ℕ × List (List ℕ)
with_byte c f = (c ∷ f.0, f.1)

-- A string of one byte, which is no quote.
string_last : (c : ℕ) → (c == b'"') ≡ false → fields in_string (c ∷ []) ≡ (c ∷ [], words [])
unfolding words fields
string_last c p = elim (Bool-cases (c == b'\\')) [ inl q ↦ rw (p, q) refl | inr q ↦ rw (p, q) refl ]

pub fields-string :
    (text : List ℕ) → fields in_string text ≡ (str text, words (tail_of (behind_str text)))
fields-string [] = unfold fields words in refl
fields-string (c ∷ []) = elim (Bool-cases (c == b'"')) [
  | inl p ↦ rw p (string_closed c [] p)
  | inr p ↦ rw p (string_last c p)
]
fields-string (c ∷ d ∷ cs) = elim (Bool-cases (c == b'"')) [
  | inl p ↦ rw p (string_closed c (d ∷ cs) p)
  | inr p ↦ elim (Bool-cases (c == b'\\')) [
    | inl q ↦ elim (Bool-cases (d == b'"')) [
      | inl r ↦
          rw (p, q, r)
            (string_slashed c (d ∷ cs) p q
              ∙ ap (with_byte c) (fields-escaped_quote d cs (==_true d b'"' r))
              ∙ ap (λ f. with_byte c (with_byte d f)) (fields-string cs))
      | inr r ↦
          rw (p, q, r)
            (string_slashed c (d ∷ cs) p q
              ∙ ap (with_byte c) (fields-escaped d cs r ∙ fields-string (d ∷ cs)))
    ]
    | inr q ↦ rw (p, q) (string_on c (d ∷ cs) p q ∙ ap (with_byte c) (fields-string (d ∷ cs)))
  ]
]

-- The words of a text that begins with a word, and of one that begins with a quote.
pub words_plain :
    (c : ℕ) (cs : List ℕ)
    → is_blank c ≡ false
    → c ≢ b'"'
    → words (c ∷ cs) ≡ word (c ∷ cs) ∷ words (behind_word (c ∷ cs))
words_plain c cs p q =
    first_word ∙ rw p (ap (λ (f : List ℕ × List (List ℕ)). (c ∷ f.0) ∷ f.1) (fields-word cs))
  where
    first_word : words (c ∷ cs) ≡ (c ∷ (fields in_word cs).0) ∷ (fields in_word cs).1
    first_word = unfold words fields in rw (words, p, ne→== c b'"' q) refl

pub words_quoted : (cs : List ℕ) → words (b'"' ∷ cs) ≡ str cs ∷ words (tail_of (behind_str cs))
words_quoted cs = first_word ∙ ap (λ (f : List ℕ × List (List ℕ)). f.0 ∷ f.1) (fields-string cs)
  where
    first_word : words (b'"' ∷ cs) ≡ (fields in_string cs).0 ∷ (fields in_string cs).1
    first_word = unfold words fields in refl

-- What is left after the blanks does not begin with one.
pub trim-cases :
    (text : List ℕ)
    → (trim text ≡ []) ⊎ ((c : ℕ) × (cs : List ℕ) × (trim text ≡ c ∷ cs) × (is_blank c ≡ false))
trim-cases [] = inl refl
trim-cases (c ∷ cs) = elim (Bool-cases (is_blank c)) [
  | inl p ↦ rw p (trim-cases cs)
  | inr p ↦ inr (c, cs, rw p refl, p)
]
