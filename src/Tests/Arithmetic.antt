-- ===== src/Tests/Arithmetic.antt =====
-- The float arithmetic at single inputs, against the known bit patterns.
use motor_test.Base.{◌≡◌, refl, true, false, some}
use motor_test.Base.Int.{pos}
use motor_test.Float.{Float, float32, float64, lit, add, sub, mul, div, neg, magnitude}
use motor_test.Float.Convert.{float_bits, narrow, of_int, to_int}
use motor_test.MathOps.{float_to_uint}

abbrev limit_pos : Float
unfolding lit
limit_pos = lit float32 false 25 2

-- 0.1f is 0x3DCCCCCD.
tenth_bits : float_bits (lit float32 false 1 10) ≡ 0x3DCC_CCCD
unfolding float_bits lit magnitude
tenth_bits = refl

third_bits : float_bits (div float32 (lit float32 true 1 1) (lit float32 false 3 1)) ≡ 0xBEAA_AAAB
unfolding float_bits lit div magnitude
third_bits = refl

-- 0.1 + 0.2 in `double`, converted to `float`.
sum_bits :
    float_bits (narrow (add float64 (lit float64 false 1 10) (lit float64 false 2 10)))
    ≡ 0x3E99_999A
unfolding float_bits lit add narrow magnitude
sum_bits = refl

quantised : float_to_uint (lit float32 false 0 1) (neg limit_pos) limit_pos 16 ≡ some (pos 32767)
unfolding float_to_uint of_int to_int sub mul div lit neg magnitude
quantised = refl

quantised_top : float_to_uint limit_pos (neg limit_pos) limit_pos 16 ≡ some (pos 65535)
unfolding float_to_uint of_int to_int sub mul div lit neg magnitude
quantised_top = refl
