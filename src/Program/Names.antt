-- ===== src/Program/Names.antt =====
-- The names in the table of the program: words, short, and no two alike.
use motor_test.Base.{
  ℕ, ◌<◌, ◌≡◌, ◌≢◌, refl, arith, true, false, Bool, not, if◌then◌else◌, ltb, leb, ◌==◌,
}
use motor_test.Base.{
  List, [], ◌∷◌, All, length, both, Bool-cases, inl, inr, ltb→lt, leb→le, ==_false, not-true, sym,
  ap, ◌∙◌,
}
use motor_test.Shell.Names.{memcmp_equal}
use motor_test.Shell.Table.{FinshSyscall, names_of}
use motor_test.Shell.Split.{is_blank}
use motor_test.Shell.Dispatch.{IsString}
use motor_test.Shell.Safe.Tab.{IsShort}
use motor_test.Shell.Editor.Typing.{IsPrintable}
use motor_test.Program.Table.{Answers, bench_table}
use motor_test.Program.Registered.{AreApart, memcmp_equal_self}

-- Characters of a word: printable, no blank, no quote.
abbrev pub IsLetter : ℕ → Type 0
IsLetter c = (32 < c) × (c < 127) × (c ≢ b'"')

abbrev pub IsWord : List ℕ → Type 0
IsWord [] = ⊥
IsWord (c ∷ w) = All IsLetter (c ∷ w)

pub not_blank : (c : ℕ) → IsLetter c → is_blank c ≡ false
not_blank c h = ground arith

pub IsWord-letters : (w : List ℕ) → IsWord w → All IsLetter w
IsWord-letters [] h = tt
IsWord-letters (c ∷ w) h = h

-- A letter can be typed.
pub letters-IsPrintable : (w : List ℕ) → All IsLetter w → All IsPrintable w
letters-IsPrintable [] h = tt
letters-IsPrintable (c ∷ w) h =
    let low = h.0.0 in ((omega arith, h.0.1), letters-IsPrintable w (h.1))

-- The same as tests.
abbrev is_letter : ℕ → Bool
is_letter c = if ltb 32 c then (if ltb c 127 then not (c == b'"') else false) else false

abbrev all_letters : List ℕ → Bool
all_letters [] = true
all_letters (c ∷ w) = let rest = all_letters w in if is_letter c then rest else false

abbrev is_name : List ℕ → Bool
is_name [] = false
is_name (c ∷ w) = if all_letters (c ∷ w) then leb (length (c ∷ w)) 127 else false

abbrev all_names : List (List ℕ) → Bool
all_names [] = true
all_names (name ∷ names) = let rest = all_names names in if is_name name then rest else false

all_letters_sound : (w : List ℕ) → all_letters w ≡ true → All IsLetter w
all_letters_sound [] e = tt
all_letters_sound (c ∷ w) e =
    let parts = both (is_letter c) (all_letters w) e in
    let low = both (ltb 32 c) (if ltb c 127 then not (c == b'"') else false) (parts.0) in
    let high = both (ltb c 127) (not (c == b'"')) (low.1) in
    (
      (ltb→lt 32 c (low.0), ltb→lt c 127 (high.0), ==_false c b'"' (not-true (c == b'"') (high.1))),
      all_letters_sound w (parts.1),
    )

abbrev pub IsName : List ℕ → Type 0
IsName name = IsWord name × IsString name × IsShort name

pub letters-IsString : (w : List ℕ) → All IsLetter w → IsString w
letters-IsString [] h = tt
letters-IsString (c ∷ w) h = let low = h.0.0 in (λ e. omega arith, letters-IsString w (h.1))

is_name_sound : (name : List ℕ) → is_name name ≡ true → IsName name
is_name_sound [] e = absurd (cc)
is_name_sound (c ∷ w) e =
    let parts = both (all_letters (c ∷ w)) (leb (length (c ∷ w)) 127) e in
    let sound = all_letters_sound (c ∷ w) (parts.0) in
    let short = leb→le _ 127 (parts.1) in (sound, letters-IsString (c ∷ w) sound, omega arith)

all_names_sound : (names : List (List ℕ)) → all_names names ≡ true → All IsName names
all_names_sound [] e = tt
all_names_sound (name ∷ names) e =
    let parts = both (is_name name) (all_names names) e in
    (is_name_sound name (parts.0), all_names_sound names (parts.1))

-- No name in the list is this one, and no two of the table are alike.
abbrev is_new : List ℕ → List (List ℕ) → Bool
is_new name [] = true
is_new name (other ∷ names) =
    let rest = is_new name names in if memcmp_equal name other then false else rest

abbrev are_apart : List FinshSyscall → Bool
are_apart [] = true
are_apart (cmd ∷ rest) =
    let others = are_apart rest in if is_new cmd.name (names_of rest) then others else false

is_new_sound :
    (name : List ℕ) (names : List (List ℕ))
    → is_new name names ≡ true
    → All (λ other. name ≢ other) names
is_new_sound name [] e = tt
is_new_sound name (other ∷ names) e = elim (Bool-cases (memcmp_equal name other)) [
  | inl p ↦ absurd (let stuck : false ≡ true = rw p at e in cc)
  | inr p ↦ (
    λ same.
        let whole : memcmp_equal name other ≡ true =
          ap (memcmp_equal name) (sym same) ∙ memcmp_equal_self name in
        cc,
    is_new_sound name names (rw p at e),
  )
]

are_apart_sound : (xs : List FinshSyscall) → are_apart xs ≡ true → AreApart xs
are_apart_sound [] e = tt
are_apart_sound (cmd ∷ rest) e =
    let parts = both (is_new cmd.name (names_of rest)) (are_apart rest) e in
    (is_new_sound cmd.name (names_of rest) (parts.0), are_apart_sound rest (parts.1))

pub bench_table-IsName : (a : Answers) → All IsName (names_of (bench_table a))
unfolding bench_table
bench_table-IsName a = all_names_sound (names_of (bench_table a)) refl

pub bench_table-AreApart : (a : Answers) → AreApart (bench_table a)
unfolding bench_table memcmp_equal
bench_table-AreApart a = are_apart_sound (bench_table a) refl
