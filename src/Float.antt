-- ===== src/Float.antt =====
-- The arithmetic of C's `float` and `double` as IEEE 754 binary32 and binary64, rounding to nearest
-- and ties to even: what src/math_ops.c, src/pid_control.c, src/mit_protocol.c, src/test.c and
-- src/torque_sensor.c compute with.
pub mod Magnitude
pub mod Order
pub mod Finite
pub mod Convert
use motor_test.Base.{ℕ, zero, suc, ◌+◌, ◌-◌, ◌*◌, ◌/◌, ◌%◌, ◌^◌, ◌≤◌, ◌<◌, Bool, true, false, not}
use motor_test.Base.{ltb, ◌==◌, ◌&&◌, if◌then◌else◌, Option, some, none}
use motor_test.Base.Int.{ℤ, pos, negsuc, neg_ℕ}
use motor_test.Rounding.{round_to, nearest}

-- A finite number counts units of its format; the sign bit `true` is minus, also on zero.
pub data Float : Type 0 where
  nan : Float
  inf : Bool → Float
  fin : Bool → ℕ → Float

-- `half` is 2 ^ (precision - 1), `unit` the units in 1.0, and `limit` the first magnitude, in units,
-- beyond the largest finite number's binade.
pub record Format : Type 0 where
  pub half : ℕ
  pub unit : ℕ
  pub limit : ℕ

abbrev pub float32 : Format
float32 = record { half = 2 ^ 23; unit = 2 ^ 149; limit = 2 ^ 277 }

abbrev pub float64 : Format
float64 = record { half = 2 ^ 52; unit = 2 ^ 1074; limit = 2 ^ 2098 }

-- More turns of the scaling loop than any quotient of two `double` magnitudes needs.
unfoldable pub rounding_fuel : ℕ
rounding_fuel = 4096

-- The magnitude n / d, in units, rounded to the format's precision.
unfoldable pub magnitude : Format → ℕ → ℕ → ℕ
unfolding rounding_fuel round_to nearest
magnitude f n d = round_to rounding_fuel f.half n d

-- A magnitude beyond the format overflows to an infinity.
unfoldable pub finish : Format → Bool → ℕ → Float
finish f s m = if ltb m f.limit then fin s m else inf s

abbrev pub unlike : Bool → Bool → Bool
unlike true t = not t
unlike false t = t

abbrev pub zero_float : Float
zero_float = fin false 0

-- The literal n / d, with its sign.
unfoldable pub lit : Format → Bool → ℕ → ℕ → Float
unfolding finish
lit f s n d = finish f s (magnitude f (n * f.unit) d)

unfoldable pub neg : Float → Float
neg nan = nan
neg (inf s) = inf (not s)
neg (fin s m) = fin (not s) m

-- The two parts of a signed magnitude, one of which is 0.
abbrev pub plus_part : Bool → ℕ → ℕ
plus_part true m = 0
plus_part false m = m

abbrev pub minus_part : Bool → ℕ → ℕ
minus_part true m = m
minus_part false m = 0

-- `a < b`; false where either is a NaN.
unfoldable pub lt : Float → Float → Bool
lt nan b = false
lt (inf s) nan = false
lt (inf s) (inf t) = s && not t
lt (inf s) (fin t n) = s
lt (fin s m) nan = false
lt (fin s m) (inf t) = not t
lt (fin s m) (fin t n) = ltb (plus_part s m + minus_part t n) (plus_part t n + minus_part s m)

abbrev pub gt : Float → Float → Bool
gt a b = lt b a

-- A sum of finite numbers: equal signs add, unlike signs subtract, and x - x is +0.
unfoldable pub add_finite : Format → Bool → ℕ → Bool → ℕ → Float
unfolding finish
add_finite f s m t n =
    if not (unlike s t)
    then finish f s (magnitude f (m + n) 1)
    else if ltb n m
    then finish f s (magnitude f (m - n) 1)
    else if ltb m n
    then finish f t (magnitude f (n - m) 1)
    else zero_float

unfoldable pub add : Format → Float → Float → Float
unfolding add_finite
add f nan b = nan
add f (inf s) nan = nan
add f (inf s) (inf t) = if unlike s t then nan else inf s
add f (inf s) (fin t n) = inf s
add f (fin s m) nan = nan
add f (fin s m) (inf t) = inf t
add f (fin s m) (fin t n) = add_finite f s m t n

unfoldable pub sub : Format → Float → Float → Float
unfolding add neg
sub f a b = add f a (neg b)

unfoldable pub mul : Format → Float → Float → Float
unfolding finish
mul f nan b = nan
mul f (inf s) nan = nan
mul f (inf s) (inf t) = inf (unlike s t)
mul f (inf s) (fin t n) = if n == 0 then nan else inf (unlike s t)
mul f (fin s m) nan = nan
mul f (fin s m) (inf t) = if m == 0 then nan else inf (unlike s t)
mul f (fin s m) (fin t n) = finish f (unlike s t) (magnitude f (m * n) f.unit)

unfoldable pub div : Format → Float → Float → Float
unfolding finish
div f nan b = nan
div f (inf s) nan = nan
div f (inf s) (inf t) = nan
div f (inf s) (fin t n) = inf (unlike s t)
div f (fin s m) nan = nan
div f (fin s m) (inf t) = fin (unlike s t) 0
div f (fin s m) (fin t n) =
    if n == 0
    then (if m == 0 then nan else inf (unlike s t))
    else finish f (unlike s t) (magnitude f (m * f.unit) n)

-- `fabs`.
unfoldable pub abs : Float → Float
abs nan = nan
abs (inf s) = inf false
abs (fin s m) = fin false m
