-- ===== src/Shell/Completion.antt =====
-- What a tab completes a name to, by a definition on the names, and `msh_auto_complete`.
pub mod Tab
pub mod Line
pub mod Key
use motor_test.Base.{
  ℕ, zero, suc, ◌+◌, ◌-◌, ◌≤◌, ◌<◌, ◌≡◌, ◌≢◌, refl, sym, ap, ap₂, ◌∙◌, arith, ltb, ◌==◌,
  if◌then◌else◌,
}
use motor_test.Base.{ne→==, ltb→lt, ltb→ge, true, false, Bool, Bool-cases, inl, inr}
use motor_test.Base.{List, [], ◌∷◌, ◌++◌, All, length, Option, some, none}
use motor_test.Base.Memory.{take, drop, length-take}
use motor_test.Shell.Names.{head_or, strncmp_equal}
use motor_test.Shell.Complete.{str_common, Found, shorten, take_in, find_names, nothing_found}
use motor_test.Shell.Dispatch.{IsString}
use motor_test.Base.Memory.Laws.{take_all}

abbrev pub starts_with : List ℕ → List ℕ → Bool
starts_with [] name = true
starts_with (c ∷ cs) [] = false
starts_with (c ∷ cs) (d ∷ ds) = let rest = starts_with cs ds in if c == d then rest else false

abbrev pub matching : List ℕ → List (List ℕ) → List (List ℕ)
matching prefix [] = []
matching prefix (name ∷ names) =
    let rest = matching prefix names in if starts_with prefix name then name ∷ rest else rest

-- The longest part that two texts begin with.
abbrev pub shared : List ℕ → List ℕ → List ℕ
shared [] ys = []
shared (x ∷ xs) [] = []
shared (x ∷ xs) (y ∷ ys) = let rest = shared xs ys in if x == y then x ∷ rest else []

abbrev pub shared_all : List ℕ → List (List ℕ) → List ℕ
shared_all text [] = text
shared_all text (name ∷ names) = shared_all (shared text name) names

abbrev pub complete_with : List ℕ → List (List ℕ) → List ℕ
complete_with prefix [] = prefix
complete_with prefix (name ∷ names) = shared_all name names

-- What the names that begin with the prefix have in common; the prefix itself where there is none.
unfoldable pub completion : List ℕ → List (List ℕ) → List ℕ
completion prefix names = complete_with prefix (matching prefix names)

strncmp_equal-starts_with :
    (prefix rest name : List ℕ)
    → IsString prefix
    → strncmp_equal (length prefix) (prefix ++ rest) name ≡ starts_with prefix name
unfolding strncmp_equal
strncmp_equal-starts_with [] rest name h = refl
strncmp_equal-starts_with (c ∷ cs) rest [] h = rw (ne→== c 0 (h.0)) refl
strncmp_equal-starts_with (c ∷ cs) rest (d ∷ ds) h = elim (Bool-cases (c == d)) [
  | inl p ↦ rw (p, ne→== c 0 (h.0)) (strncmp_equal-starts_with cs rest ds (h.1))
  | inr p ↦ rw p refl
]

abbrev pub take_in_all : List (List ℕ) → Found → Found
take_in_all [] found = found
take_in_all (name ∷ names) found = take_in_all names (take_in name found)

pub find_names-matching :
    (prefix rest : List ℕ) (names : List (List ℕ)) (found : Found)
    → IsString prefix
    → find_names (prefix ++ rest) (length prefix) names found
      ≡ take_in_all (matching prefix names) found
unfolding find_names
find_names-matching prefix rest [] found h = refl
find_names-matching prefix rest (name ∷ names) found h =
    elim (Bool-cases (starts_with prefix name)) [
      | inl p ↦
          rw (strncmp_equal-starts_with prefix rest name h, p)
            (find_names-matching prefix rest names (take_in name found) h)
      | inr p ↦
          rw (strncmp_equal-starts_with prefix rest name h, p)
            (find_names-matching prefix rest names found h)
    ]

pub take-take : (n k : ℕ) (xs : List ℕ) → n ≤ k → take n (take k xs) ≡ take n xs
take-take zero k xs h = refl
take-take (suc n) zero xs h = absurd (omega arith)
take-take (suc n) (suc k) [] h = refl
take-take (suc n) (suc k) (x ∷ xs) h = ap (x ∷◌) (take-take n k xs (omega arith))

pub take-longer : (n k : ℕ) (xs : List ℕ) → k ≤ n → take n (take k xs) ≡ take k xs
take-longer zero zero xs h = refl
take-longer zero (suc k) xs h = absurd (omega arith)
take-longer (suc n) zero xs h = refl
take-longer (suc n) (suc k) [] h = refl
take-longer (suc n) (suc k) (x ∷ xs) h = ap (x ∷◌) (take-longer n k xs (omega arith))

pub shared-take :
    (n : ℕ) (xs ys : List ℕ) → shared (take n xs) ys ≡ take n (take (str_common xs ys) xs)
unfolding str_common
shared-take zero xs ys = refl
shared-take (suc n) [] ys = refl
shared-take (suc n) (x ∷ xs) [] = refl
shared-take (suc n) (x ∷ xs) (y ∷ ys) = elim (Bool-cases (x == y)) [
  | inl p ↦ rw p (ap (x ∷◌) (shared-take n xs ys))
  | inr p ↦ rw p refl
]

pub str_common_self : (xs : List ℕ) → str_common xs xs ≡ length xs
unfolding str_common
str_common_self [] = refl
str_common_self (x ∷ xs) = let e : (x == x) ≡ true = ground arith in rw (e, str_common_self xs) refl
