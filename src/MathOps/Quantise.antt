-- ===== src/MathOps/Quantise.antt =====
-- `float_to_uint` inside its range: no undefined conversion, and a result of the stated bits.
use motor_test.Base.{
  ℕ, ◌+◌, ◌-◌, ◌*◌, ◌/◌, ◌^◌, ◌≤◌, ◌<◌, ◌≡◌, ◌≢◌, arith, refl, Bool, true, false, some,
}
use motor_test.Base.Int.{pos}
use motor_test.Float.{Float, nan, inf, fin, float32, lt, sub, mul, div, plus_part, minus_part}
use motor_test.Float.Magnitude.{mag, mag_exact, mag_scaled}
use motor_test.Float.Convert.{of_int, to_int}
use motor_test.MathOps.{float_to_uint, top}
use motor_test.MathOps.Scale.{
  rounded, product, ratio, span_pos, product-lt, ratio-lt, ratio_mono, ratio_zero, span-le,
  dist-le-span,
}

-- How far `hi` is above `lo`, in units; 0 where either is not finite.
abbrev pub units_between : Float → Float → ℕ
units_between (fin s l) (fin t h) =
    (plus_part t h + minus_part s l) - (plus_part s l + minus_part t h)
units_between _ _ = 0

-- A number that is not below `lo` and not above `hi`.
pub record InRange (lo hi x : Float) : Type 0 where
  pub real : x ≢ nan
  pub from_low : lt x lo ≡ false
  pub to_high : lt hi x ≡ false

-- Bounds that differ and whose span, times the largest code, is far from overflowing.
pub record ProperRange (lo hi : Float) : Type 0 where
  pub wide : 0 < units_between lo hi
  pub small : units_between lo hi ≤ 2 ^ 220

-- The code of a number in range: its distance from `lo`, scaled and rounded as the C code does it.
abbrev pub code_of : Float → Float → Float → ℕ → ℕ
code_of lo hi x bits = ratio (units_between lo x) (units_between lo hi) (top bits) / 2 ^ 149

-- The difference to a number that is not larger: a rounded distance, or a zero of either sign.
sub_units :
    (s : Bool) (m : ℕ) (t : Bool) (n : ℕ)
    → lt (fin s m) (fin t n) ≡ false
    → mag (units_between (fin t n) (fin s m) * 1) 1 < 2 ^ 277
    → (b : Bool) × (sub float32 (fin s m) (fin t n)
        ≡ fin b (mag (units_between (fin t n) (fin s m) * 1) 1))
      × (b ≡ true → units_between (fin t n) (fin s m) ≡ 0)
unfolding lt sub
sub_units false m false n h fits = (false, ground (arith, mag_exact 0 1), λ e. cc)
sub_units false m true n h fits = (false, ground arith, λ e. cc)
sub_units true m false n h fits = (true, ground (arith), λ e. ground arith)
sub_units true m true n h fits = (false, ground (arith, mag_exact 0 1), λ e. cc)

of_int_small : (c : ℕ) → c ≤ 65535 → of_int float32 (pos c) ≡ fin false (c * 2 ^ 149)
unfolding of_int
of_int_small c h = ground (arith, mag_scaled c 149 1)

-- The three roundings in turn, on a distance with the sign of a zero.
module _ (d w c : ℕ) (within : d ≤ w) (some_span : 0 < w) (small : w ≤ 2 ^ 220)
    (narrow : c ≤ 65535) where
  mul-rounded :
      (b : Bool) → mul float32 (fin b (rounded d)) (fin false (c * 2 ^ 149)) ≡ fin b (product d c)
  unfolding mul
  mul-rounded true = ground (arith, product-lt d w c within some_span small narrow)
  mul-rounded false = ground (arith, product-lt d w c within some_span small narrow)

  div-product :
      (b : Bool) → div float32 (fin b (product d c)) (fin false (rounded w)) ≡ fin b (ratio d w c)
  unfolding div
  div-product true = ground (
    arith,
    span_pos d w c within some_span small narrow,
    ratio-lt d w c within some_span small narrow,
  )
  div-product false = ground (
    arith,
    span_pos d w c within some_span small narrow,
    ratio-lt d w c within some_span small narrow,
  )

  to_int-ratio :
      (b : Bool)
      → (b ≡ true → d ≡ 0)
      → to_int float32 (fin b (ratio d w c)) ≡ some (pos (ratio d w c / 2 ^ 149))
  unfolding to_int
  to_int-ratio true zero_dist =
      rw (ratio_zero d w c within some_span small narrow (zero_dist refl)) refl
  to_int-ratio false zero_dist = ground (arith, ratio-lt d w c within some_span small narrow)

-- The whole conversion, from the two differences.
float_to_uint_steps :
    (d w : ℕ) (x lo hi : Float) (bits : ℕ) (b t : Bool)
    → d ≤ w
    → 0 < w
    → w ≤ 2 ^ 220
    → top bits ≤ 65535
    → sub float32 x lo ≡ fin b (rounded d)
    → (b ≡ true → d ≡ 0)
    → sub float32 hi lo ≡ fin t (rounded w)
    → (t ≡ true → w ≡ 0)
    → float_to_uint x lo hi bits ≡ some (pos (ratio d w (top bits) / 2 ^ 149))
unfolding float_to_uint
float_to_uint_steps d w x lo hi bits b true within wide small narrow e z f no_span =
    absurd (omega (arith, no_span refl))
float_to_uint_steps d w x lo hi bits b false within wide small narrow e z f no_span =
    rw
      (
        e,
        f,
        of_int_small (top bits) narrow,
        mul-rounded d w (top bits) within wide small narrow b,
        div-product d w (top bits) within wide small narrow b,
      )
      (to_int-ratio d w (top bits) within wide small narrow b z)

module _ (sl : Bool) (l : ℕ) (sh : Bool) (h : ℕ) where
  units_mono :
      (s : Bool) (m : ℕ)
      → lt (fin s m) (fin sl l) ≡ false
      → lt (fin sh h) (fin s m) ≡ false
      → units_between (fin sl l) (fin s m) ≤ units_between (fin sl l) (fin sh h)
  unfolding lt
  units_mono s m above below = ground arith

  bounds_ordered : 0 < units_between (fin sl l) (fin sh h) → lt (fin sh h) (fin sl l) ≡ false
  unfolding lt
  bounds_ordered some_span = ground arith

-- The conversion of a finite number between two finite bounds, in units.
module _ (sl : Bool) (l : ℕ) (sh : Bool) (h : ℕ) (s : Bool) (m bits : ℕ) (narrow : top bits ≤ 65535)
    (r : ProperRange (fin sl l) (fin sh h)) (above : lt (fin s m) (fin sl l) ≡ false)
    (below : lt (fin sh h) (fin s m) ≡ false) where
  abbrev distance : ℕ
  distance = units_between (fin sl l) (fin s m)

  abbrev span : ℕ
  span = units_between (fin sl l) (fin sh h)

  within : distance ≤ span
  within = units_mono sl l sh h s m above below

  code_finite-le : code_of (fin sl l) (fin sh h) (fin s m) bits ≤ top bits
  code_finite-le = omega (arith, ratio-lt distance span (top bits) within r.wide r.small narrow)

  quantise_finite :
      float_to_uint (fin s m) (fin sl l) (fin sh h) bits
      ≡ some (pos (code_of (fin sl l) (fin sh h) (fin s m) bits))
  quantise_finite =
      let fits = span-le distance span (top bits) within r.wide r.small narrow in
      let closer = dist-le-span distance span (top bits) within r.wide r.small narrow in
      let near = sub_units s m sl l above (omega arith) in
      let full = sub_units sh h sl l (bounds_ordered sl l sh h r.wide) (omega arith) in
      float_to_uint_steps distance span (fin s m) (fin sl l) (fin sh h) bits near.0 full.0 within
        r.wide r.small narrow near.1 near.2 full.1 full.2

-- Between proper bounds, with at most 16 bits, the conversion of a number in range is defined, is
-- its code, and fits the bits.
pub float_to_uint-InRange :
    (lo hi x : Float) (bits : ℕ)
    → top bits ≤ 65535
    → ProperRange lo hi
    → InRange lo hi x
    → (float_to_uint x lo hi bits ≡ some (pos (code_of lo hi x bits)))
      × (code_of lo hi x bits ≤ top bits)
float_to_uint-InRange nan hi x bits narrow p r = absurd (omega (arith, p.wide))
float_to_uint-InRange (inf s) hi x bits narrow p r = absurd (omega (arith, p.wide))
float_to_uint-InRange (fin sl l) nan x bits narrow p r = absurd (omega (arith, p.wide))
float_to_uint-InRange (fin sl l) (inf s) x bits narrow p r = absurd (omega (arith, p.wide))
float_to_uint-InRange (fin sl l) (fin sh h) nan bits narrow p r = absurd (r.real refl)
float_to_uint-InRange (fin sl l) (fin sh h) (inf s) bits narrow p r =
    absurd (unfold lt in ground (arith, r.from_low, r.to_high))
float_to_uint-InRange (fin sl l) (fin sh h) (fin s m) bits narrow p r = (
  quantise_finite sl l sh h s m bits narrow p r.from_low r.to_high,
  code_finite-le sl l sh h s m bits narrow p r.from_low r.to_high,
)

units_between_mono :
    (lo hi x y : Float)
    → ProperRange lo hi
    → InRange lo hi x
    → InRange lo hi y
    → lt y x ≡ false
    → units_between lo x ≤ units_between lo y
unfolding lt
units_between_mono lo hi x y p rx ry h = ground (arith, p.wide, rx.real, ry.real)

-- The conversion keeps the order of the numbers in range.
pub code_mono :
    (lo hi x y : Float) (bits : ℕ)
    → ProperRange lo hi
    → InRange lo hi x
    → InRange lo hi y
    → lt y x ≡ false
    → code_of lo hi x bits ≤ code_of lo hi y bits
code_mono lo hi x y bits p rx ry h =
    let w : ℕ = units_between lo hi in
    let far = span_pos 0 w 0 (omega arith) p.wide p.small (omega arith) in
    let closer = units_between_mono lo hi x y p rx ry h in
    omega (arith, ratio_mono (units_between lo x) (units_between lo y) w (top bits) closer far)

-- Proper bounds are numbers, in order.
pub ProperRange-low : (lo hi : Float) → ProperRange lo hi → lo ≢ nan
ProperRange-low lo hi p = ground (arith, p.wide)

pub ProperRange-high : (lo hi : Float) → ProperRange lo hi → hi ≢ nan
ProperRange-high lo hi p = ground (arith, p.wide)

pub ProperRange-ordered : (lo hi : Float) → ProperRange lo hi → lt hi lo ≡ false
unfolding lt
ProperRange-ordered lo hi p = ground (arith, p.wide)
