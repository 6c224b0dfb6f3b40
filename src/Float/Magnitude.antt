-- ===== src/Float/Magnitude.antt =====
-- The laws of the rounded magnitude of a `float`, from those of the rounding.
use native.Mathlib.Nat.{mul-le-mul_right, le_of_mul-le-mul_right}
use native.Mathlib.Decide.{dec_lt}
use motor_test.Base.{ℕ, ◌+◌, ◌*◌, ◌^◌, ◌≤◌, ◌<◌, ◌≡◌, arith}
use motor_test.Rounding.Laws.{round_to_exact, round_to_mono, round_to_error, round_to-le_half}
use motor_test.Rounding.Laws.{round_to_scaled}
use motor_test.Float.{float32, magnitude, rounding_fuel}

abbrev pub mag : ℕ → ℕ → ℕ
mag = magnitude float32

pub mag_mono : (m n d : ℕ) → 0 < d → m ≤ n → mag m d ≤ mag n d
unfolding magnitude
mag_mono m n d pos h = round_to_mono rounding_fuel (2 ^ 23) m n d pos h

pub mag_exact : (k d : ℕ) → 0 < d → k ≤ 2 ^ 24 → mag (k * d) d ≡ k
unfolding magnitude
mag_exact k d pos h = round_to_exact rounding_fuel (2 ^ 23) k d pos h

pub mag_error : (n d : ℕ) → 2 ^ 23 * d ≤ n → mag n d * d * 2 ^ 23 ≤ n * (2 ^ 23 + 1)
unfolding magnitude
mag_error n d h = round_to_error rounding_fuel (2 ^ 23) n d h

pub mag-le_half : (n d : ℕ) → 0 < d → n ≤ 2 ^ 23 * d → mag n d ≤ 2 ^ 23
unfolding magnitude
mag-le_half n d pos h = round_to-le_half rounding_fuel (2 ^ 23) n d pos h

-- Rounding a whole number of units moves it by at most one part in 2 ^ 23.
pub mag_whole : (k d : ℕ) → 0 < d → mag (k * d) d * 2 ^ 23 ≤ k * (2 ^ 23 + 1)
mag_whole k d pos = elim (dec_lt (2 ^ 24) k) [
  | yes p ↦
      le_of_mul-le-mul_right
        (omega (arith, mag_error (k * d) d (omega (arith, mul-le-mul_right d p)))) pos
  | no p ↦ omega (arith, mag_exact k d pos (omega arith))
]

-- A number of at most 24 digits times a power of two is a `float`.
pub mag_scaled : (k e d : ℕ) → 0 < d → k ≤ 2 ^ 24 → e ≤ 4096 → mag (k * 2 ^ e * d) d ≡ k * 2 ^ e
unfolding magnitude
mag_scaled k e d pos h small = round_to_scaled rounding_fuel (2 ^ 23) k e d pos h small
