-- ===== src/Rounding.antt =====
-- Rounding to nearest, ties to even, as the C arithmetic on `float` and `double` does it: the
-- nearest number with a bounded count of significant digits to a ratio of two natural numbers.
-- `half` is 2 ^ (precision - 1), so a result that needs no scaling is at most `2 * half`.
pub mod Laws
use motor_test.Base.{ℕ, zero, suc, ◌+◌, ◌*◌, ◌/◌, ◌%◌, ◌≤◌, ◌<◌, ◌≡◌, refl, ◌⊎◌, arith}
use native.Mathlib.Nat.{le-div_iff_mul-le, div-mul-le_self, div-add-mod', mul-div_cancel}
use native.Mathlib.Nat.{mul-mod_left, mul-le-mul_right}
use native.Mathlib.Decide.{dec_lt}
use mathlib.Core.Path.{ap}
use motor_test.Base.{ltb, if◌then◌else◌, Bool-cases, true, false, ltb→lt, ltb→ge, inl, inr}

-- Which neighbour of q + r / d is nearer, ties to even.
unfoldable pub settle : ℕ → ℕ → ℕ → ℕ
settle q r d = if ltb (2 * r) d then q else if ltb d (2 * r) then q + 1 else q + q % 2

-- n / d to the nearest natural number, ties to even.
unfoldable pub nearest : ℕ → ℕ → ℕ
unfolding settle
nearest n d = settle (n / d) (n % d) d

-- The quantum doubles until the quotient has at most the digits that `half` allows.
unfoldable pub round_to : ℕ → ℕ → ℕ → ℕ → ℕ
round_to zero half n d = nearest n d
round_to (suc fuel) half n d =
    let wider = 2 * round_to fuel half n (2 * d) in
    if ltb n (2 * half * d) then nearest n d else wider

settle_bounds : (q r d : ℕ) → (q ≤ settle q r d) × (settle q r d ≤ q + 1)
unfolding settle
settle_bounds q r d = ground arith

settle-zero : (q d : ℕ) → 0 < d → settle q 0 d ≡ q
unfolding settle
settle-zero q d h = ground arith

settle_mono : (q r s d : ℕ) → r ≤ s → settle q r d ≤ settle q s d
unfolding settle
settle_mono q r s d h = ground arith

-- Division with remainder, in the order that the proofs below use.
div_mono : (m n d : ℕ) → 0 < d → m ≤ n → m / d ≤ n / d
div_mono m n d pos h = (le-div_iff_mul-le pos).1 (omega (arith, div-mul-le_self m d))

pub nearest_mul : (k d : ℕ) → 0 < d → nearest (k * d) d ≡ k
unfolding nearest
nearest_mul k d pos = rw (mul-div_cancel k pos, mul-mod_left) (settle-zero k d pos)

pub nearest_mono : (m n d : ℕ) → 0 < d → m ≤ n → nearest m d ≤ nearest n d
unfolding nearest
nearest_mono m n d pos h = elim (dec_lt (m / d) (n / d)) [
  | yes p ↦ omega (arith, settle_bounds (m / d) (m % d) d, settle_bounds (n / d) (n % d) d)
  | no p ↦
      let same : m / d ≡ n / d = omega (arith, div_mono m n d pos h) in
      let rest : m % d ≤ n % d =
        omega (arith, div-add-mod' m d, div-add-mod' n d, ap (λ (t : ℕ). t * d) same) in
      rw same (settle_mono (n / d) (m % d) (n % d) d rest)
]

-- A multiple of the divisor bounds the result on its side.
pub nearest-ge : (n d k : ℕ) → 0 < d → k * d ≤ n → k ≤ nearest n d
nearest-ge n d k pos h = omega (arith, nearest_mul k d pos, nearest_mono (k * d) n d pos h)

pub nearest-le : (n d k : ℕ) → 0 < d → n ≤ k * d → nearest n d ≤ k
nearest-le n d k pos h = omega (arith, nearest_mul k d pos, nearest_mono n (k * d) d pos h)

-- The error is at most one unit of the quotient.
pub nearest_error : (n d : ℕ) → nearest n d * d ≤ n + d
unfolding nearest
nearest_error n d =
    omega (arith, div-mul-le_self n d, mul-le-mul_right d (settle_bounds (n / d) (n % d) d).1)
