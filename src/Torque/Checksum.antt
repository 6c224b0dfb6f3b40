-- ===== src/Torque/Checksum.antt =====
-- The table-driven checksum is the bitwise one, of the polynomial 0xA001.
use native.Mathlib.Nat.{pow-suc}
use motor_test.Base.{ℕ, zero, suc, ◌+◌, ◌*◌, ◌/◌, ◌%◌, ◌^◌, ◌<◌, ◌≡◌, refl, ap, arith, ◌==◌, ==_iff}
use motor_test.Base.{if◌then◌else◌, Bool, true, ◌&&◌, List, [], ◌∷◌, bit_xor, get_or, All}
use motor_test.Base.Bits.{
  half_xor, odd_xor, xor-zero, zero-xor, xor_self, xor_comm, xor_assoc, xor_low,
}
use motor_test.Torque.{crc_step, crc_loop, modbus_crc16}
use motor_test.Torque.Table.{table}

-- One bit of the register: shift right, and subtract the polynomial if a one falls out.
unfoldable pub shift_bit : ℕ → ℕ
shift_bit x = if x % 2 == 0 then x / 2 else bit_xor (x / 2) 0xA001

unfoldable pub shift_bits : ℕ → ℕ → ℕ
unfolding shift_bit
shift_bits zero x = x
shift_bits (suc n) x = shift_bits n (shift_bit x)

-- The definition of the checksum: each byte is added to the register, which is shifted eight times.
unfoldable pub bitwise_crc : ℕ → List ℕ → ℕ
unfolding shift_bits
bitwise_crc crc [] = crc
bitwise_crc crc (b ∷ bytes) = bitwise_crc (shift_bits 8 (bit_xor crc b)) bytes

shift_bit-xor : (a b : ℕ) → shift_bit (bit_xor a b) ≡ bit_xor (shift_bit a) (shift_bit b)
unfolding shift_bit
shift_bit-xor a b =
    let h : ℕ = a / 2 in
    let k : ℕ = b / 2 in
    let p : ℕ = 0xA001 in
    ground (
      arith,
      half_xor a b,
      odd_xor a b,
      xor_assoc h k p,
      xor_assoc h p k,
      xor_assoc h p p,
      xor_assoc (bit_xor h p) p k,
      xor_comm p k,
      xor_self p,
      xor-zero h,
    )

-- Shifting is linear.
shift_bits-xor :
    (n a b : ℕ) → shift_bits n (bit_xor a b) ≡ bit_xor (shift_bits n a) (shift_bits n b)
unfolding shift_bits
shift_bits-xor zero a b = refl
shift_bits-xor (suc n) a b = rw (shift_bit-xor a b) (shift_bits-xor n (shift_bit a) (shift_bit b))

shift_bit_even : (x : ℕ) → shift_bit (2 * x) ≡ x
unfolding shift_bit
shift_bit_even x = ground arith

-- The bits above the byte are only moved.
shift_bits_high : (n q : ℕ) → shift_bits n (q * 2 ^ n) ≡ q
unfolding shift_bits
shift_bits_high zero q = omega arith
shift_bits_high (suc n) q =
    let even : q * 2 ^ suc n ≡ 2 * (q * 2 ^ n) =
      omega (arith, ap (λ (t : ℕ). q * t) (pow-suc 2 n)) in
    rw (even, shift_bit_even (q * 2 ^ n)) (shift_bits_high n q)

all_below : ℕ → (ℕ → Bool) → Bool
all_below zero test = true
all_below (suc n) test = test n && all_below n test

all_below_sound :
    (n : ℕ) (test : ℕ → Bool) (x : ℕ) → all_below n test ≡ true → x < n → test x ≡ true
unfolding all_below
all_below_sound zero test x h lt = absurd (omega arith)
all_below_sound (suc n) test x h lt = ground (arith, all_below_sound n test x)

-- Every entry of the table is its index, shifted eight times.
table_checked : all_below 256 (λ i. get_or table i 0 == shift_bits 8 i) ≡ true
unfolding all_below table shift_bits
table_checked = refl

table_entry : (i : ℕ) → i < 256 → get_or table i 0 ≡ shift_bits 8 i
table_entry i h = (==_iff _ _).0 (all_below_sound 256 _ i table_checked h)

-- Eight shifts of the register with the byte added are one step by the table.
crc_step_lem : (crc b : ℕ) → b < 256 → shift_bits 8 (bit_xor crc b) ≡ crc_step crc b
unfolding crc_step
crc_step_lem crc b h =
    let q : ℕ = crc / 256 in
    let low : ℕ = bit_xor (crc % 256) b in
    let small : low < 256 = (xor_low q 8 (crc % 256) b (omega arith) h).1 in
    let sum : bit_xor crc b ≡ q * 2 ^ 8 + low = ground (arith, xor_low q 8 (crc % 256) b) in
    let split : bit_xor (q * 2 ^ 8) low ≡ q * 2 ^ 8 + low =
      ground (arith, xor_low q 8 0 low, zero-xor low) in
    let index : bit_xor b crc % 2 ^ 8 ≡ low = omega (arith, xor_comm b crc, sum, small) in
    rw (index, table_entry low small, sum, ← split, shift_bits-xor 8 (q * 2 ^ 8) low)
      (rw (shift_bits_high 8 q))

crc_loop-eq-bitwise_crc :
    (crc : ℕ) (bytes : List ℕ)
    → All (λ b. b < 256) bytes
    → crc_loop crc bytes ≡ bitwise_crc crc bytes
unfolding crc_loop bitwise_crc
crc_loop-eq-bitwise_crc crc [] h = refl
crc_loop-eq-bitwise_crc crc (b ∷ bytes) h =
    rw (crc_step_lem crc b h.0) (crc_loop-eq-bitwise_crc (crc_step crc b) bytes h.1)

-- On every sequence of bytes the table-driven checksum is the bitwise one.
pub modbus_crc16-eq-bitwise_crc :
    (bytes : List ℕ) → All (λ b. b < 256) bytes → modbus_crc16 bytes ≡ bitwise_crc 0xFFFF bytes
unfolding modbus_crc16
modbus_crc16-eq-bitwise_crc bytes h = crc_loop-eq-bitwise_crc 0xFFFF bytes h

xor-bound : (n a b : ℕ) → a < 2 ^ n → b < 2 ^ n → bit_xor a b < 2 ^ n
xor-bound zero a b h k =
    let none : a ≡ 0 = omega arith in
    let none_too : b ≡ 0 = omega arith in rw (none, none_too) (omega arith)
xor-bound (suc n) a b h k =
    let two = pow-suc 2 n in
    let half = xor-bound n (a / 2) (b / 2) (omega (arith, two)) (omega (arith, two)) in
    omega (arith, half_xor a b, half, two)

shift_bit-bound : (x : ℕ) → x < 2 ^ 16 → shift_bit x < 2 ^ 16
unfolding shift_bit
shift_bit-bound x h =
    let mixed = xor-bound 16 (x / 2) 0xA001 (omega arith) (omega arith) in ground (arith, mixed)

shift_bits-bound : (n x : ℕ) → x < 2 ^ 16 → shift_bits n x < 2 ^ 16
unfolding shift_bits
shift_bits-bound zero x h = h
shift_bits-bound (suc n) x h = shift_bits-bound n (shift_bit x) (shift_bit-bound x h)

-- The checksum of bytes has 16 bits.
pub bitwise_crc-bound :
    (crc : ℕ) (bytes : List ℕ)
    → crc < 2 ^ 16
    → All (λ b. b < 256) bytes
    → bitwise_crc crc bytes < 2 ^ 16
unfolding bitwise_crc
bitwise_crc-bound crc [] c h = c
bitwise_crc-bound crc (b ∷ bytes) c h =
    let byte = h.0 in
    let mixed = xor-bound 16 crc b c (omega arith) in
    bitwise_crc-bound (shift_bits 8 (bit_xor crc b)) bytes (shift_bits-bound 8 _ mixed) (h.1)
