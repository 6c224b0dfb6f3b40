-- ===== src/Shell/Completion/Tab.antt =====
-- A tab completes the text of the line.
use motor_test.Base.{ℕ, ◌≤◌, ◌≡◌, refl, sym, ap, ◌∙◌, arith, ltb, ◌==◌}
use motor_test.Base.{◌⊎◌, eq→==, ==_true, ne→==, ltb→lt, ltb→ge, true, false, Bool-cases, inl, inr}
use motor_test.Base.{List, [], ◌∷◌, All, length, some}
use motor_test.Base.Memory.{take}
use motor_test.Shell.Complete.{str_common, Found, shorten, take_in, nothing_found}
use motor_test.Base.{both}
use motor_test.Shell.Completion.{starts_with, matching, shared, shared_all, take_in_all}
use motor_test.Shell.Completion.{take-take, take-longer, shared-take, str_common_self}

-- The name begins with the prefix.
abbrev pub Starts : List ℕ → List ℕ → Type 0
Starts prefix name = starts_with prefix name ≡ true

Starts-cons : (c d : ℕ) (cs ds : List ℕ) → Starts (c ∷ cs) (d ∷ ds) → (c ≡ d) × Starts cs ds
Starts-cons c d cs ds h =
    let parts = both (c == d) (starts_with cs ds) h in (==_true c d (parts.0), parts.1)

-- Two names with one prefix share it.
Starts-str_common :
    (prefix xs ys : List ℕ) → Starts prefix xs → Starts prefix ys → length prefix ≤ str_common xs ys
unfolding str_common
Starts-str_common [] xs ys h g = omega arith
Starts-str_common (c ∷ cs) [] ys h g = absurd (cc)
Starts-str_common (c ∷ cs) (x ∷ xs) [] h g = absurd (cc)
Starts-str_common (c ∷ cs) (x ∷ xs) (y ∷ ys) h g =
    let first = Starts-cons c x cs xs h in
    let second = Starts-cons c y cs ys g in
    let e : (x == y) ≡ true = eq→== x y (sym (first.0) ∙ second.0) in
    rw e (omega (arith, Starts-str_common cs xs ys (first.1) (second.1)))

pub matching-Starts :
    (prefix : List ℕ) (names : List (List ℕ)) → All (Starts prefix) (matching prefix names)
matching-Starts prefix [] = tt
matching-Starts prefix (name ∷ names) = elim (Bool-cases (starts_with prefix name)) [
  | inl p ↦ rw p (p, matching-Starts prefix names)
  | inr p ↦ rw p (matching-Starts prefix names)
]

abbrev pub found_in : List ℕ → ℕ → Found
found_in name n = record { name_ptr = some name; min_length = n }

-- A name more takes away what it does not share.
take_in-shared :
    (m name : List ℕ) (n : ℕ)
    → 1 ≤ n
    → (n' : ℕ) × (take_in name (found_in m n) ≡ found_in m n')
      × (take n' m ≡ shared (take n m) name)
      × ((n' ≡ n) ⊎ (n' ≡ str_common m name))
      × (n' ≤ n)
unfolding take_in shorten
take_in-shared m name n l = elim (Bool-cases (ltb (str_common m name) n)) [
  | inl p ↦
      let less = ltb→lt _ _ p in
      (
        str_common m name,
        rw (ne→== n 0 (λ e. omega arith), p) refl,
        sym (take-longer n (str_common m name) m (omega arith)) ∙ sym (shared-take n m name),
        inr refl,
        omega arith,
      )
  | inr p ↦
      let more = ltb→ge _ _ p in
      (
        n,
        rw (ne→== n 0 (λ e. omega arith), p) refl,
        sym (take-take n (str_common m name) m more) ∙ sym (shared-take n m name),
        inl refl,
        omega arith,
      )
]

-- What the loop over the names has found, from the first one on.
pub found_shared :
    (prefix m : List ℕ) (names : List (List ℕ)) (n : ℕ)
    → 1 ≤ length prefix
    → Starts prefix m
    → All (Starts prefix) names
    → length prefix ≤ n
    → n ≤ length m
    → (k : ℕ) × (take_in_all names (found_in m n) ≡ found_in m k)
      × (take k m ≡ shared_all (take n m) names)
      × (length prefix ≤ k)
      × (k ≤ length m)
found_shared prefix m [] n some_text h a low high = (n, refl, refl, low, high)
found_shared prefix m (name ∷ names) n some_text h a low high =
    let now = take_in-shared m name n (omega arith) in
    let common = Starts-str_common prefix m name h (a.0) in
    let low' : length prefix ≤ now.0 = elim (now.3) [ inl e ↦ omega arith | inr e ↦ omega arith ] in
    let later = found_shared prefix m names (now.0) some_text h (a.1) low' (omega (arith, now.4)) in
    (
      later.0,
      ap (take_in_all names) (now.1) ∙ later.1,
      later.2 ∙ ap (λ w. shared_all w names) (now.2),
      later.3,
      later.4,
    )

pub Starts-length : (prefix name : List ℕ) → Starts prefix name → length prefix ≤ length name
Starts-length [] name h = omega arith
Starts-length (c ∷ cs) [] h = absurd (cc)
Starts-length (c ∷ cs) (d ∷ ds) h = omega (arith, Starts-length cs ds ((Starts-cons c d cs ds h).1))

pub first_found : (m : List ℕ) → take_in m nothing_found ≡ found_in m (length m)
unfolding take_in shorten
first_found m =
    let e : ltb (length m) (length m) ≡ false = ground arith in rw (str_common_self m, e) refl
