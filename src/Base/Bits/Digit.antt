-- ===== src/Base/Bits/Digit.antt =====
-- One equation for the lowest digit of each native operation on bits; they are defined with fuel.
use Prim.Native.Nat.{ℕ, zero, suc, ◌+◌, ◌*◌, ◌/◌, ◌%◌, ◌≤◌, ◌<◌, min, max, differ}
use Prim.Native.Nat.{bit_and, bit_or, bit_xor, digits, bitwise}
use Prim.Native.Nat.{bit_and-bitwise, bit_or-bitwise, bit_xor-bitwise}
use mathlib.Core.Path.{◌≡◌, refl}
use native.Mathlib.Nat.{le_refl}
use native.Mathlib.Omega.{arith}

module _ (rest : ℕ → ℕ) (digit : ℕ → ℕ → ℕ) where
  -- Fuel beyond the first number changes nothing.
  any_fuel : (f g a b : ℕ) → a ≤ f → a ≤ g → digits rest digit f a b ≡ digits rest digit g a b
  any_fuel zero zero a b h k = refl
  any_fuel zero (suc g) zero b h k = refl
  any_fuel zero (suc g) (suc a) b h k = absurd (omega arith)
  any_fuel (suc f) zero zero b h k = refl
  any_fuel (suc f) zero (suc a) b h k = absurd (omega arith)
  any_fuel (suc f) (suc g) zero b h k = refl
  any_fuel (suc f) (suc g) (suc a) b h k =
      let halves = any_fuel f g (suc a / 2) (b / 2) (omega arith) (omega arith) in rw halves

  lowest :
      (a b : ℕ)
      → bitwise rest digit (suc a) b
        ≡ bitwise rest digit (suc a / 2) (b / 2) * 2 + digit (suc a % 2) (b % 2)
  lowest a b = omega (arith, any_fuel a (suc a / 2) (suc a / 2) (b / 2) (omega arith) (le_refl _))

pub low_or : (a b : ℕ) → bit_or a b ≡ bit_or (a / 2) (b / 2) * 2 + max (a % 2) (b % 2)
low_or zero b = simp bit_or-bitwise (omega arith)
low_or (suc a) b = simp bit_or-bitwise (lowest (λ b. b) max a b)

pub low_and : (a b : ℕ) → bit_and a b ≡ bit_and (a / 2) (b / 2) * 2 + min (a % 2) (b % 2)
low_and zero b = simp bit_and-bitwise (omega arith)
low_and (suc a) b = simp bit_and-bitwise (lowest (λ b. 0) min a b)

pub low_xor : (a b : ℕ) → bit_xor a b ≡ bit_xor (a / 2) (b / 2) * 2 + differ (a % 2) (b % 2)
low_xor zero b = simp bit_xor-bitwise (omega arith)
low_xor (suc a) b = simp bit_xor-bitwise (lowest (λ b. b) differ a b)

-- Exclusive or of two digits is their sum modulo 2.
differ_digits : (a b : ℕ) → a < 2 → b < 2 → differ a b ≡ (a + b) % 2
differ_digits zero b h k = omega arith
differ_digits (suc zero) zero h k = refl
differ_digits (suc zero) (suc zero) h k = refl
differ_digits (suc zero) (suc (suc b)) h k = absurd (omega arith)
differ_digits (suc (suc a)) b h k = absurd (omega arith)

pub half_xor : (a b : ℕ) → bit_xor a b / 2 ≡ bit_xor (a / 2) (b / 2)
half_xor a b = omega (arith, low_xor a b, differ_digits (a % 2) (b % 2) (omega arith) (omega arith))

pub odd_xor : (a b : ℕ) → bit_xor a b % 2 ≡ (a + b) % 2
odd_xor a b = omega (arith, low_xor a b, differ_digits (a % 2) (b % 2) (omega arith) (omega arith))
