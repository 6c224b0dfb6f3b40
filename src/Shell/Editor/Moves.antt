-- ===== src/Shell/Editor/Moves.antt =====
-- Opening and closing a gap at the cursor.
use motor_test.Base.{ℕ, suc, ◌+◌, ◌≤◌, ◌<◌, ◌≡◌, refl, sym, ap, ap₂, ◌∙◌, arith, le→leb, lt→ltb}
use motor_test.Base.{List, [], ◌∷◌, ◌++◌, length, length-append, some}
use mathlib.Core.List.{append_assoc}
use motor_test.Base.Memory.{take, drop, memmove, store_at, take-append, drop-append, set-append}
use motor_test.Shell.Editor.{rev_onto}

pub length-rev_onto : (xs ys : List ℕ) → length (rev_onto xs ys) ≡ length xs + length ys
length-rev_onto [] ys = omega arith
length-rev_onto (x ∷ xs) ys = omega (arith, length-rev_onto xs (x ∷ ys))

pub rev_onto-append : (xs ys zs : List ℕ) → rev_onto xs (ys ++ zs) ≡ rev_onto xs ys ++ zs
rev_onto-append [] ys zs = refl
rev_onto-append (x ∷ xs) ys zs = rev_onto-append xs (x ∷ ys) zs

pub rev_onto_twice : (xs b zs : List ℕ) → rev_onto (rev_onto xs b) zs ≡ rev_onto b (xs ++ zs)
rev_onto_twice [] b zs = refl
rev_onto_twice (x ∷ xs) b zs = rev_onto_twice xs (x ∷ b) zs

pub drop_more : (n : ℕ) (u ys : List ℕ) → drop (length u + n) (u ++ ys) ≡ drop n ys
drop_more n [] ys = let e : 0 + n ≡ n = omega arith in ap (λ k. drop k ys) e
drop_more n (x ∷ u) ys =
    let e : suc (length u) + n ≡ suc (length u + n) = omega arith in
    ap (λ k. drop k (x ∷ u ++ ys)) e ∙ drop_more n u ys

take_one_more : (u ys : List ℕ) (y : ℕ) → take (length u + 1) (u ++ y ∷ ys) ≡ u ++ y ∷ []
take_one_more [] ys y = refl
take_one_more (x ∷ u) ys y =
    let e : suc (length u) + 1 ≡ suc (length u + 1) = omega arith in
    ap (λ k. take k (x ∷ u ++ y ∷ ys)) e ∙ ap (x ∷◌) (take_one_more u ys y)

take_one :
    (u a z : List ℕ) (y : ℕ) → (x : ℕ) × (take (length u + 1) (u ++ (a ++ y ∷ z)) ≡ u ++ x ∷ [])
take_one u [] z y = (y, take_one_more u z y)
take_one u (x ∷ a) z y = (x, take_one_more u (a ++ y ∷ z) x)

drop_short : (a z : List ℕ) (x : ℕ) → (y : ℕ) × (drop (length a) (x ∷ (a ++ z)) ≡ y ∷ z)
drop_short [] z x = (x, refl)
drop_short (y ∷ a) z x = drop_short a z y

-- What is moved, by its parts.
memmove_parts :
    (buf : List ℕ) (dst src n : ℕ) {p q r : List ℕ}
    → src + n ≤ length buf
    → dst + n ≤ length buf
    → take dst buf ≡ p
    → take n (drop src buf) ≡ q
    → drop (dst + n) buf ≡ r
    → memmove buf dst src n ≡ some (p ++ (q ++ r))
unfolding memmove
memmove_parts buf dst src n s t front middle back =
    rw (le→leb _ _ s, le→leb _ _ t, front, middle, back) refl

pub store_at_append :
    (u z : List ℕ) (x c : ℕ) → store_at (u ++ x ∷ z) (length u) c ≡ some (u ++ c ∷ z)
unfolding store_at
store_at_append u z x c =
    let inside : length u < length (u ++ x ∷ z) = omega (arith, length-append u (x ∷ z)) in
    rw (lt→ltb _ _ inside) (ap some (set-append u z x c))

-- The bytes `a` go one to the right, and the byte before them is stored.
pub open_gap :
    (u a z : List ℕ) (y c : ℕ)
    → (out : List ℕ) × (memmove (u ++ (a ++ y ∷ z)) (length u + 1) (length u) (length a) ≡ some out)
      × (store_at out (length u) c ≡ some (u ++ (c ∷ (a ++ z))))
open_gap u a z y c =
    let sized : length (u ++ (a ++ y ∷ z)) ≡ length u + (length a + suc (length z)) =
      omega (arith, length-append u (a ++ y ∷ z), length-append a (y ∷ z)) in
    let first = take_one u a z y in
    let e : length u + 1 + length a ≡ length u + (length a + 1) = omega arith in
    let buf = u ++ (a ++ y ∷ z) in
    (
      (u ++ first.0 ∷ []) ++ (a ++ z),
      memmove_parts buf (length u + 1) (length u) (length a) (omega arith) (omega arith) (first.1)
          (ap (take (length a)) (drop-append u (a ++ y ∷ z)) ∙ take-append a (y ∷ z))
          (ap (λ k. drop k buf) e
            ∙ drop_more (length a + 1) u (a ++ y ∷ z)
            ∙ drop_more 1 a (y ∷ z)),
      ap (λ b. store_at b (length u) c) (append_assoc u (first.0 ∷ []) (a ++ z))
          ∙ store_at_append u (a ++ z) (first.0) c,
    )

-- The byte before `a` goes away: the bytes `a` go one to the left, and a 0 is stored behind them.
pub shut_gap :
    (u a z : List ℕ) (x : ℕ)
    → (out : List ℕ) × (memmove (u ++ (x ∷ (a ++ z))) (length u) (length u + 1) (length a)
        ≡ some out)
      × (store_at out (length u + length a) 0 ≡ some (u ++ (a ++ 0 ∷ z)))
shut_gap u a z x =
    let buf = u ++ (x ∷ (a ++ z)) in
    let sized : length buf ≡ length u + suc (length a + length z) =
      omega (arith, length-append u (x ∷ (a ++ z)), length-append a z) in
    let last = drop_short a z x in
    (
      u ++ (a ++ last.0 ∷ z),
      memmove_parts buf (length u) (length u + 1) (length a) (omega arith) (omega arith)
          (take-append u (x ∷ (a ++ z)))
          (ap (take (length a)) (drop_more 1 u (x ∷ (a ++ z))) ∙ take-append a z)
          (drop_more (length a) u (x ∷ (a ++ z)) ∙ last.1),
      ap₂ (λ b k. store_at b k 0) (sym (append_assoc u a (last.0 ∷ z))) (sym (length-append u a))
          ∙ store_at_append (u ++ a) z (last.0) 0
          ∙ ap some (append_assoc u a (0 ∷ z)),
    )
