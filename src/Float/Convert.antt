-- ===== src/Float/Convert.antt =====
-- Conversions: between the two formats, to and from `int`, and the bytes of a `float`.
use motor_test.Base.{ℕ, zero, suc, ◌+◌, ◌*◌, ◌/◌, ◌^◌, Bool, true, false}
use motor_test.Base.{ltb, leb, if◌then◌else◌, Option, some, none}
use motor_test.Base.Int.{ℤ, pos, negsuc, neg_ℕ}
use motor_test.Float.{Float, nan, inf, fin, Format, float32, finish, magnitude}

-- `float` to `double` is exact; 2 ^ 925 of the small units make one of the large.
unfoldable pub widen : Float → Float
widen nan = nan
widen (inf s) = inf s
widen (fin s m) = fin s (m * 2 ^ 925)

-- `double` to `float` rounds.
unfoldable pub narrow : Float → Float
unfolding finish
narrow nan = nan
narrow (inf s) = inf s
narrow (fin s m) = finish float32 s (magnitude float32 m (2 ^ 925))

-- `int` to a float.
unfoldable pub of_int : Format → ℤ → Float
unfolding finish
of_int f (pos n) = finish f false (magnitude f (n * f.unit) 1)
of_int f (negsuc n) = finish f true (magnitude f (suc n * f.unit) 1)

-- A float to a 32-bit `int`, towards zero. `none` is undefined behaviour: a NaN, an infinity, or a
-- value outside the range.
unfoldable pub to_int : Format → Float → Option ℤ
to_int f nan = none
to_int f (inf s) = none
to_int f (fin true m) = let q = m / f.unit in if leb q (2 ^ 31) then some (neg_ℕ q) else none
to_int f (fin false m) = let q = m / f.unit in if ltb q (2 ^ 31) then some (pos q) else none

-- The exponent and fraction fields of a binary32 magnitude, as one number: `e` halvings were made.
unfoldable pub magnitude_bits : ℕ → ℕ → ℕ → ℕ
magnitude_bits zero m e = e * 2 ^ 23 + m
magnitude_bits (suc fuel) m e =
    let halved = magnitude_bits fuel (m / 2) (e + 1) in
    if ltb m (2 ^ 24) then e * 2 ^ 23 + m else halved

abbrev pub sign_bit : Bool → ℕ
sign_bit true = 2 ^ 31
sign_bit false = 0

-- The 32 bits of a `float` in memory; a NaN is taken as the default quiet one.
unfoldable pub float_bits : Float → ℕ
unfolding magnitude_bits
float_bits nan = 0x7FC0_0000
float_bits (inf s) = sign_bit s + 0x7F80_0000
float_bits (fin s m) = sign_bit s + magnitude_bits 254 m 0
