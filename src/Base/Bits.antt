-- ===== src/Base/Bits.antt =====
-- `&`, `|` and `^` on numbers: the laws that the field packing and the checksum use, each from the
-- equation for the lowest digit.
mod Digit
use Prim.Native.Nat.{ℕ, zero, suc, ◌+◌, ◌-◌, ◌*◌, ◌/◌, ◌%◌, ◌^◌, ◌<◌}
use Prim.Native.Nat.{bit_and, bit_or, bit_xor}
use mathlib.Core.Path.{◌≡◌, refl, ap}
use mathlib.Core.WellFounded
use native.Mathlib.Nat.{pow-suc, one-le-pow}
use native.Mathlib.Omega.{arith}
use motor_test.Base.Order.{lt_wf}
use Digit.{low_or, low_and, low_xor, half_xor, odd_xor}
pub use Digit.{half_xor, odd_xor}

-- A statement of every number, from its half.
by_halves {ℓ} : (P : ℕ → Type ℓ) → P 0 → ((n : ℕ) → P (n / 2) → P n) → (n : ℕ) → P n
by_halves P base up n = WellFounded.induction lt_wf {C = P} n go
  where
    go : (k : ℕ) → ((m : ℕ) → m < k → P m) → P k
    go zero ih = base
    go (suc k) ih = up (suc k) (ih (suc k / 2) (omega arith))

pub or-zero : (a : ℕ) → bit_or a 0 ≡ a
or-zero = by_halves (λ a. bit_or a 0 ≡ a) refl (λ n ih. omega (arith, low_or n 0, ih))

pub and-zero : (a : ℕ) → bit_and a 0 ≡ 0
and-zero = by_halves (λ a. bit_and a 0 ≡ 0) refl (λ n ih. omega (arith, low_and n 0, ih))

pub xor-zero : (a : ℕ) → bit_xor a 0 ≡ a
xor-zero =
    by_halves (λ a. bit_xor a 0 ≡ a) refl (λ n ih. omega (arith, half_xor n 0, odd_xor n 0, ih))

pub xor_self : (a : ℕ) → bit_xor a a ≡ 0
xor_self =
    by_halves (λ a. bit_xor a a ≡ 0) refl (λ n ih. ground (arith, half_xor n n, odd_xor n n, ih))

pub zero-or : (a : ℕ) → bit_or 0 a ≡ a
zero-or = by_halves (λ a. bit_or 0 a ≡ a) refl (λ n ih. omega (arith, low_or 0 n, ih))

pub zero-xor : (a : ℕ) → bit_xor 0 a ≡ a
zero-xor =
    by_halves (λ a. bit_xor 0 a ≡ a) refl (λ n ih. omega (arith, half_xor 0 n, odd_xor 0 n, ih))

by_digit : (a b : ℕ) → a / 2 ≡ b / 2 → a % 2 ≡ b % 2 → a ≡ b
by_digit a b h k = omega arith

pub or_comm : (a b : ℕ) → bit_or a b ≡ bit_or b a
or_comm =
    by_halves (λ a. (b : ℕ) → bit_or a b ≡ bit_or b a) (λ b. rw (zero-or, or-zero))
      λ n ih b. omega (arith, low_or n b, low_or b n, ih (b / 2))

pub xor_comm : (a b : ℕ) → bit_xor a b ≡ bit_xor b a
xor_comm =
    by_halves (λ a. (b : ℕ) → bit_xor a b ≡ bit_xor b a) (λ b. rw (zero-xor, xor-zero))
      λ n ih b.
        by_digit (bit_xor n b) (bit_xor b n)
          (ground (arith, half_xor n b, half_xor b n, ih (b / 2)))
          (omega (arith, odd_xor n b, odd_xor b n))

pub xor_assoc : (a b c : ℕ) → bit_xor (bit_xor a b) c ≡ bit_xor a (bit_xor b c)
xor_assoc =
    by_halves (λ a. (b c : ℕ) → bit_xor (bit_xor a b) c ≡ bit_xor a (bit_xor b c))
      (λ b c. rw (zero-xor b, zero-xor (bit_xor b c)))
      λ n ih b c.
        by_digit (bit_xor (bit_xor n b) c) (bit_xor n (bit_xor b c))
          (rw (half_xor (bit_xor n b) c, half_xor n (bit_xor b c), half_xor n b, half_xor b c)
            (ih (b / 2) (c / 2)))
          (omega
            (arith, odd_xor (bit_xor n b) c, odd_xor n (bit_xor b c), odd_xor n b, odd_xor b c))

-- A number above `k` low bits, and the low bits.
module _ (q : ℕ) where
  scaled_suc : (k : ℕ) → q * 2 ^ suc k ≡ 2 * (q * 2 ^ k)
  scaled_suc k = omega (arith, ap (λ (t : ℕ). q * t) (pow-suc 2 k))

  -- `(q << k) | r` is a sum.
  pub or_low : (k r : ℕ) → r < 2 ^ k → bit_or (q * 2 ^ k) r ≡ q * 2 ^ k + r
  or_low zero r h = ground (arith, or-zero q)
  or_low (suc k) r h =
      ground (arith, low_or (q * 2 ^ suc k) r, scaled_suc k, or_low k (r / 2) (omega arith))

  -- `& ((1 << k) - 1)` keeps the low bits.
  pub and_low : (k r : ℕ) → r < 2 ^ k → bit_and (q * 2 ^ k + r) (2 ^ k - 1) ≡ r
  and_low zero r h = rw and-zero (omega arith)
  and_low (suc k) r h = ground (
    arith,
    low_and (q * 2 ^ suc k + r) (2 ^ suc k - 1),
    scaled_suc k,
    pow-suc 2 k,
    and_low k (r / 2) (omega arith),
  )

  -- `^` with a number of `k` bits changes the low bits alone.
  pub xor_low :
      (k r s : ℕ)
      → r < 2 ^ k
      → s < 2 ^ k
      → (bit_xor (q * 2 ^ k + r) s ≡ q * 2 ^ k + bit_xor r s) × (bit_xor r s < 2 ^ k)
  xor_low zero r s h k = ground (arith, xor-zero q, xor-zero r)
  xor_low (suc k) r s h g = ground (
    arith,
    half_xor (q * 2 ^ suc k + r) s,
    odd_xor (q * 2 ^ suc k + r) s,
    half_xor r s,
    odd_xor r s,
    scaled_suc k,
    pow-suc 2 k,
    xor_low k (r / 2) (s / 2) (omega arith) (omega arith),
  )

pub and_mask : (k a : ℕ) → bit_and a (2 ^ k - 1) ≡ a % 2 ^ k
and_mask k a = ground (arith, one-le-pow k 2, and_low (a / 2 ^ k) k (a % 2 ^ k))
