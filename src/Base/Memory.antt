-- ===== src/Base/Memory.antt =====
-- Buffers of bytes as lists: parts of a list, the C functions that move and measure bytes, and what
-- they keep. `none` is an access outside the buffer.
pub mod Laws
use Prim.Native.Nat.{ℕ, zero, suc, ◌+◌, ◌-◌, ◌≤◌, ◌<◌}
use mathlib.Core.Path.{◌≡◌, refl, ap, ◌∙◌}
use mathlib.Core.Bool.{Bool, true, false, ◌&&◌}
use mathlib.Core.List.{List, [], ◌∷◌, ◌++◌}
use mathlib.Core.Option.{Option, none, some}
use native.Mathlib.Omega.{arith}
use motor_test.Base.Lists.{All, length, get_or, set, length-append}
use motor_test.Base.Tests.{ltb, leb, ◌==◌, if◌then◌else◌}

module _ {ℓ} {A : Type ℓ} where
  abbrev pub take : ℕ → List A → List A
  take zero xs = []
  take (suc n) [] = []
  take (suc n) (x ∷ xs) = x ∷ take n xs

  abbrev pub drop : ℕ → List A → List A
  drop zero xs = xs
  drop (suc n) [] = []
  drop (suc n) (x ∷ xs) = drop n xs

  abbrev pub replicate : ℕ → A → List A
  replicate zero x = []
  replicate (suc n) x = x ∷ replicate n x

  pub length-take : (n : ℕ) (xs : List A) → n ≤ length xs → length (take n xs) ≡ n
  length-take zero xs h = refl
  length-take (suc n) [] h = absurd (omega arith)
  length-take (suc n) (x ∷ xs) h = ap suc (length-take n xs (omega arith))

  pub length-drop : (n : ℕ) (xs : List A) → length (drop n xs) ≡ length xs - n
  length-drop zero xs = omega arith
  length-drop (suc n) [] = omega arith
  length-drop (suc n) (x ∷ xs) = omega (arith, length-drop n xs)

  pub length-replicate : (n : ℕ) (x : A) → length (replicate n x) ≡ n
  length-replicate zero x = refl
  length-replicate (suc n) x = ap suc (length-replicate n x)

  pub All-replicate {κ} : (P : A → Type κ) (n : ℕ) (x : A) → P x → All P (replicate n x)
  All-replicate P zero x h = tt
  All-replicate P (suc n) x h = (h, All-replicate P n x h)

  pub take-append : (xs ys : List A) → take (length xs) (xs ++ ys) ≡ xs
  take-append [] ys = refl
  take-append (x ∷ xs) ys = ap (x ∷◌) (take-append xs ys)

  pub drop-append : (xs ys : List A) → drop (length xs) (xs ++ ys) ≡ ys
  drop-append [] ys = refl
  drop-append (x ∷ xs) ys = drop-append xs ys

  pub get_or-append :
      (xs ys : List A) (i : ℕ) (d : A)
      → length xs ≤ i
      → get_or (xs ++ ys) i d ≡ get_or ys (i - length xs) d
  get_or-append [] ys i d h = let e : i ≡ i - 0 = omega arith in ap (λ j. get_or ys j d) e
  get_or-append (x ∷ xs) ys zero d h = absurd (omega arith)
  get_or-append (x ∷ xs) ys (suc i) d h =
      let e : i - length xs ≡ suc i - suc (length xs) = omega arith in
      get_or-append xs ys i d (omega arith) ∙ ap (λ j. get_or ys j d) e

  pub get_or-drop :
      (n : ℕ) (xs : List A) (i : ℕ) (d : A) → get_or (drop n xs) i d ≡ get_or xs (n + i) d
  get_or-drop zero xs i d = let e : i ≡ 0 + i = omega arith in ap (λ j. get_or xs j d) e
  get_or-drop (suc n) [] i d = refl
  get_or-drop (suc n) (x ∷ xs) i d =
      let e : suc (n + i) ≡ suc n + i = omega arith in
      get_or-drop n xs i d ∙ ap (λ j. get_or (x ∷ xs) j d) e

  pub length-set : (xs : List A) (i : ℕ) (v : A) → length (set xs i v) ≡ length xs
  length-set [] i v = refl
  length-set (x ∷ xs) zero v = refl
  length-set (x ∷ xs) (suc i) v = ap suc (length-set xs i v)

  pub get_or-set_other :
      (xs : List A) (i j : ℕ) (v d : A) → i < j → get_or (set xs i v) j d ≡ get_or xs j d
  get_or-set_other [] i j v d h = refl
  get_or-set_other (x ∷ xs) zero zero v d h = absurd (omega arith)
  get_or-set_other (x ∷ xs) zero (suc j) v d h = refl
  get_or-set_other (x ∷ xs) (suc i) zero v d h = absurd (omega arith)
  get_or-set_other (x ∷ xs) (suc i) (suc j) v d h = get_or-set_other xs i j v d (omega arith)

  pub set-append : (xs ys : List A) (x v : A) → set (xs ++ x ∷ ys) (length xs) v ≡ xs ++ v ∷ ys
  set-append [] ys x v = refl
  set-append (z ∷ xs) ys x v = ap (z ∷◌) (set-append xs ys x v)

-- `memmove` within a buffer: `n` bytes from `src` on to `dst`.
unfoldable pub memmove : List ℕ → ℕ → ℕ → ℕ → Option (List ℕ)
memmove buf dst src n =
    if leb (src + n) (length buf) && leb (dst + n) (length buf)
    then some (take dst buf ++ (take n (drop src buf) ++ drop (dst + n) buf))
    else none

-- An assignment to one byte.
unfoldable pub store_at : List ℕ → ℕ → ℕ → Option (List ℕ)
store_at buf i c = if ltb i (length buf) then some (set buf i c) else none

-- `memcpy` of the first `n` bytes of another buffer to the front of this one.
unfoldable pub memcpy : List ℕ → List ℕ → ℕ → Option (List ℕ)
memcpy buf src n =
    if leb n (length src) && leb n (length buf) then some (take n src ++ drop n buf) else none

-- The bytes before the first 0; `none` where there is no 0.
unfoldable pub strlen : List ℕ → Option ℕ
strlen [] = none
strlen (zero ∷ cs) = some 0
strlen (suc c ∷ cs) = elim (strlen cs) [ none ↦ none | some n ↦ some (suc n) ]
