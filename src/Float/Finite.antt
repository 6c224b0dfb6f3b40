-- ===== src/Float/Finite.antt =====
-- Finite numbers: which sums are numbers, and which products and differences stay finite.
use mathlib.Core.Path.{subst}
use native.Mathlib.Nat.{mul-le-mul_right}
use motor_test.Base.{
  ℕ, ◌+◌, ◌-◌, ◌*◌, ◌^◌, ◌≤◌, ◌≡◌, ◌≢◌, refl, sym, arith, Bool, true, false, not, if_elim,
}
use motor_test.Base.{ltb, ◌==◌, if◌then◌else◌, Bool-cases, inl, inr}
use motor_test.Float.{
  Float, nan, inf, fin, float32, Format, magnitude, finish, neg, add, sub, mul, add_finite, unlike,
}
use motor_test.Float.Magnitude.{mag, mag_mono}

-- Neither a NaN nor an infinity.
abbrev pub IsFinite : Float → Type 0
IsFinite nan = ⊥
IsFinite (inf s) = ⊥
IsFinite (fin s m) = Unit

-- The units of a finite number; the others have none.
abbrev pub size : Float → ℕ
size nan = 0
size (inf s) = 0
size (fin s m) = m

pub finish-real : (f : Format) (s : Bool) (m : ℕ) → finish f s m ≢ nan
unfolding finish
finish-real f s m = if_elim (λ x. x ≢ nan) (ltb m f.limit) (λ p e. cc) (λ p e. cc)

add_finite-real : (f : Format) (s t : Bool) (m n : ℕ) → add_finite f s m t n ≢ nan
unfolding add_finite
add_finite-real f s t m n =
    if_elim (λ x. x ≢ nan) (not (unlike s t)) (λ p. finish-real f s (magnitude f (m + n) 1))
      (λ p.
        if_elim (λ x. x ≢ nan) (ltb n m) (λ q. finish-real f s (magnitude f (m - n) 1))
          (λ q.
            if_elim (λ x. x ≢ nan) (ltb m n) (λ r. finish-real f t (magnitude f (n - m) 1))
              (λ r e. cc)))

-- A finite number and any other: their sum is a number.
pub add-real : (f : Format) (x y : Float) → IsFinite x → y ≢ nan → add f x y ≢ nan
unfolding add
add-real o nan y h r = absurd h
add-real o (inf s) y h r = absurd h
add-real o (fin s m) nan h r = absurd (r refl)
add-real o (fin s m) (inf t) h r = λ e. cc
add-real o (fin s m) (fin t n) h r = add_finite-real o s t m n

-- The same with the finite number second.
pub real-add : (f : Format) (x y : Float) → x ≢ nan → IsFinite y → add f x y ≢ nan
unfolding add
real-add o nan y r h = absurd (r refl)
real-add o x nan r h = absurd h
real-add o x (inf t) r h = absurd h
real-add o (inf s) (fin t n) r h = λ e. cc
real-add o (fin s m) (fin t n) r h = add_finite-real o s t m n

pub finite-real : (x : Float) → IsFinite x → x ≢ nan
finite-real nan f = absurd f
finite-real (inf s) f = absurd f
finite-real (fin s m) f = λ e. cc

pub neg-IsFinite : (x : Float) → IsFinite x → IsFinite (neg x)
unfolding neg
neg-IsFinite nan f = f
neg-IsFinite (inf s) f = f
neg-IsFinite (fin s m) f = tt

neg-real : (x : Float) → x ≢ nan → neg x ≢ nan
unfolding neg
neg-real nan r = absurd (r refl)
neg-real (inf s) r = λ e. cc
neg-real (fin s m) r = λ e. cc

-- A magnitude that fits, and any smaller one.
pub finish-fits :
    (s t : Bool) (m n : ℕ)
    → IsFinite (finish float32 t n)
    → m ≤ n
    → IsFinite (finish float32 s m) × (size (finish float32 s m) ≤ size (finish float32 t n))
unfolding finish
finish-fits s t m n f l = elim (Bool-cases (ltb n (2 ^ 277))) [
  | inl p ↦ let fits : ltb m (2 ^ 277) ≡ true = ground (arith, p) in rw (p, fits) (tt, l)
  | inr p ↦ absurd (rw p at f)
]

pub mul-fits :
    (x max k : Float)
    → IsFinite x
    → size x ≤ size max
    → IsFinite (mul float32 max k)
    → IsFinite (mul float32 x k)
unfolding mul
mul-fits nan max k f l h = absurd f
mul-fits (inf s) max k f l h = absurd f
mul-fits (fin s m) nan k f l h = absurd h
mul-fits (fin s m) (inf t) nan f l h = absurd h
mul-fits (fin s m) (inf t) (inf u) f l h = absurd h
mul-fits (fin s m) (inf t) (fin u n) f l h = absurd (overflowing (n == 0) h)
  where
    overflowing : (b : Bool) → IsFinite (if b then nan else inf (unlike t u)) → ⊥
    overflowing true e = e
    overflowing false e = e
mul-fits (fin s m) (fin t n) nan f l h = absurd h
mul-fits (fin s m) (fin t n) (inf u) f l h = absurd (overflowing (n == 0) h)
  where
    overflowing : (b : Bool) → IsFinite (if b then nan else inf (unlike t u)) → ⊥
    overflowing true e = e
    overflowing false e = e
mul-fits (fin s m) (fin t n) (fin u k) f l h =
    (finish-fits (unlike s u) (unlike t u) (mag (m * k) float32.unit) (mag (n * k) float32.unit) h
      (mag_mono (m * k) (n * k) float32.unit (omega arith) (mul-le-mul_right k l))).0

-- Twice a finite number, as the distance of the two limits.
sub_span :
    (s : Bool) (m : ℕ)
    → (t : Bool) × (sub float32 (fin s m) (neg (fin s m)) ≡ finish float32 t (mag (m + m) 1))
unfolding sub add add_finite neg
sub_span true m = (true, refl)
sub_span false m = (false, refl)

add_finite-fits :
    (s t u : Bool) (m n top : ℕ)
    → m ≤ top
    → n ≤ top
    → IsFinite (finish float32 u (mag (top + top) 1))
    → IsFinite (add_finite float32 s m t n)
      × (size (add_finite float32 s m t n) ≤ size (finish float32 u (mag (top + top) 1)))
unfolding add_finite
add_finite-fits s t u m n top l k f =
    let Fits : Float → Type 0 =
      λ x. IsFinite x × (size x ≤ size (finish float32 u (mag (top + top) 1))) in
    let smaller : (v : Bool) (d : ℕ) → d ≤ top + top → Fits (finish float32 v (mag d 1)) = λ v d e.
      finish-fits v u (mag d 1) (mag (top + top) 1) f (mag_mono d (top + top) 1 (omega arith) e) in
    if_elim Fits (not (unlike s t)) (λ p. smaller s (m + n) (omega arith))
      (λ p.
        if_elim Fits (ltb n m) (λ q. smaller s (m - n) (omega arith))
          (λ q.
            if_elim Fits (ltb m n) (λ r. smaller t (n - m) (omega arith)) (λ r. (tt, omega arith))))

-- The difference of two finite numbers within a limit is within twice the limit.
pub sub-fits :
    (max x y : Float)
    → IsFinite (sub float32 max (neg max))
    → IsFinite x
    → IsFinite y
    → size x ≤ size max
    → size y ≤ size max
    → IsFinite (sub float32 x y) × (size (sub float32 x y) ≤ size (sub float32 max (neg max)))
sub-fits nan x y h f g l k = absurd (unfold sub add in h)
sub-fits (inf s) x y h f g l k = absurd (infinite s (unfold sub add neg in h))
  where
    infinite : (s : Bool) → IsFinite (if unlike s (not (not s)) then nan else inf s) → ⊥
    infinite true e = e
    infinite false e = e
sub-fits (fin s m) nan y h f g l k = absurd f
sub-fits (fin s m) (inf t) y h f g l k = absurd f
sub-fits (fin s m) (fin t n) nan h f g l k = absurd g
sub-fits (fin s m) (fin t n) (inf u) h f g l k = absurd g
sub-fits (fin s m) (fin t n) (fin u o) h f g l k =
    let span = sub_span s m in
    let whole = subst IsFinite (span.1) h in
    let fits = add_finite-fits t (not u) (span.0) n o m l k whole in
    subst
      (λ z.
        IsFinite (sub float32 (fin t n) (fin u o))
        × (size (sub float32 (fin t n) (fin u o)) ≤ size z))
      (sym (span.1)) (unfold sub neg add in fits)

pub mul-real : (f : Format) (x y : Float) → IsFinite x → IsFinite y → mul f x y ≢ nan
unfolding mul
mul-real f nan y h k = absurd h
mul-real f (inf s) y h k = absurd h
mul-real f (fin s m) nan h k = absurd k
mul-real f (fin s m) (inf t) h k = absurd k
mul-real f (fin s m) (fin t n) h k = finish-real f (unlike s t) (magnitude f (m * n) f.unit)
