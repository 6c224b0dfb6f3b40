-- ===== src/MathOps/Scale.antt =====
-- The number that `float_to_uint` computes, in units: how far the three roundings can take it.
use native.Mathlib.Nat.{mul-le-mul_right, mul-le-mul, le_of_mul-le-mul_right}
use native.Mathlib.Decide.{dec_lt}
use motor_test.Base.{ℕ, ◌+◌, ◌*◌, ◌^◌, ◌≤◌, ◌<◌, ◌≡◌, arith}
use motor_test.Float.Magnitude.{mag, mag_mono, mag_exact, mag_error, mag-le_half, mag_whole}

-- The roundings for a distance `d` within a span `w`, both in units, and the factor `c`.
abbrev pub rounded : ℕ → ℕ
rounded d = mag (d * 1) 1

abbrev pub product : ℕ → ℕ → ℕ
product d c = mag (rounded d * (c * 2 ^ 149)) (2 ^ 149)

abbrev pub ratio : ℕ → ℕ → ℕ → ℕ
ratio d w c = mag (product d c * 2 ^ 149) (rounded w)

-- A longer distance does not give a smaller number.
pub ratio_mono : (d e w c : ℕ) → d ≤ e → 0 < rounded w → ratio d w c ≤ ratio e w c
ratio_mono d e w c h pos =
    let near : rounded d ≤ rounded e = mag_mono (d * 1) (e * 1) 1 (omega arith) (omega arith) in
    let scaled : product d c ≤ product e c =
      mag_mono (rounded d * (c * 2 ^ 149)) (rounded e * (c * 2 ^ 149)) (2 ^ 149) (omega arith)
        (mul-le-mul_right (c * 2 ^ 149) near) in
    mag_mono (product d c * 2 ^ 149) (product e c * 2 ^ 149) (rounded w) pos (omega arith)

module _ (d w c : ℕ) (within : d ≤ w) (pos : 0 < w) (small : w ≤ 2 ^ 220) (narrow : c ≤ 65535) where
  pub span_pos : 0 < rounded w
  span_pos = omega (
    arith,
    mag_exact 1 1 (omega arith) (omega arith),
    mag_mono (1 * 1) (w * 1) 1 (omega arith) (omega arith),
  )

  pub dist-le-span : rounded d ≤ rounded w
  dist-le-span = mag_mono (d * 1) (w * 1) 1 (omega arith) (omega arith)

  pub span-le : rounded w ≤ 2 ^ 221
  span-le = omega (arith, mag_whole w 1 (omega arith))

  product_whole : product d c * 2 ^ 23 ≤ rounded d * c * (2 ^ 23 + 1)
  product_whole =
      let regroup : rounded d * (c * 2 ^ 149) ≡ rounded d * c * 2 ^ 149 = omega arith in
      rw regroup (mag_whole (rounded d * c) (2 ^ 149) (omega arith))

  pub product_bound : product d c * 2 ^ 23 ≤ rounded w * c * (2 ^ 23 + 1)
  product_bound = omega (arith, product_whole, mul-le-mul_right c dist-le-span)

  ratio_bound :
      2 ^ 23 * rounded w ≤ product d c * 2 ^ 149
      → ratio d w c * 2 ^ 46 ≤ c * (2 ^ 23 + 1) * (2 ^ 23 + 1) * 2 ^ 149
  ratio_bound h =
      let e : ratio d w c * rounded w * 2 ^ 23 ≤ product d c * 2 ^ 149 * (2 ^ 23 + 1) =
        mag_error (product d c * 2 ^ 149) (rounded w) h in
      le_of_mul-le-mul_right (omega (arith, e, product_bound)) span_pos

  pub ratio-lt : ratio d w c < (c + 1) * 2 ^ 149
  ratio-lt = elim (dec_lt (product d c * 2 ^ 149) (2 ^ 23 * rounded w)) [
    | yes p ↦ omega (arith, mag-le_half (product d c * 2 ^ 149) (rounded w) span_pos (omega arith))
    | no p ↦ omega (arith, ratio_bound (omega arith))
  ]

  pub product-lt : product d c < 2 ^ 277
  product-lt = omega (arith, product_bound, mul-le-mul span-le narrow)

  pub ratio_zero : d ≡ 0 → ratio d w c ≡ 0
  ratio_zero e =
      let none_far : rounded d ≡ 0 = rw e (mag_exact 0 1 (omega arith) (omega arith)) in
      let no_product : product d c ≡ 0 =
        let zero_units : 0 * (c * 2 ^ 149) ≡ 0 * 2 ^ 149 = omega arith in
        rw (none_far, zero_units) (mag_exact 0 (2 ^ 149) (omega arith) (omega arith)) in
      let vanishes : 0 * rounded w ≡ 0 = omega arith in
      let exact = mag_exact 0 (rounded w) span_pos (omega arith) in
      rw no_product (rw vanishes at exact)
