-- ===== src/MathOps.antt =====
-- src/math_ops.c: the selections of the larger and the smaller number, and the linear maps between
-- a range of floats and the unsigned integers of some bits.
pub mod Scale
pub mod Quantise
pub mod Clamp
use motor_test.Base.{ℕ, ◌-◌, ◌^◌, if◌then◌else◌, Option}
use motor_test.Base.Int.{ℤ, pos}
use motor_test.Float.{Float, float32, lt, gt, add, sub, mul, div}
use motor_test.Float.Convert.{of_int, to_int, widen, narrow}

unfoldable pub fmaxf : Float → Float → Float
fmaxf x y = if gt x y then x else y

unfoldable pub fminf : Float → Float → Float
fminf x y = if lt x y then x else y

unfoldable pub fmaxf3 : Float → Float → Float → Float
fmaxf3 x y z = if gt x y then (if gt x z then x else z) else (if gt y z then y else z)

unfoldable pub fminf3 : Float → Float → Float → Float
fminf3 x y z = if lt x y then (if lt x z then x else z) else (if lt y z then y else z)

-- `sqrt` is the C library's, on `double`; the products and the sum under it are on `float`.
unfoldable pub limit_norm : (Float → Float) → Float → Float → Float → Float × Float
limit_norm sqrt x y limit =
    let norm = narrow (sqrt (widen (add float32 (mul float32 x x) (mul float32 y y)))) in
    if gt norm limit
    then (div float32 (mul float32 x limit) norm, div float32 (mul float32 y limit) norm)
    else (x, y)

-- The largest unsigned integer of some bits, `(1 << bits) - 1`.
abbrev pub top : ℕ → ℕ
top bits = 2 ^ bits - 1

-- `none` is the undefined conversion of a float outside the range of `int`.
unfoldable pub float_to_uint : Float → Float → Float → ℕ → Option ℤ
float_to_uint x x_min x_max bits =
    let span = sub float32 x_max x_min in
    let offset = x_min in
    to_int float32
      (div float32 (mul float32 (sub float32 x offset) (of_int float32 (pos (top bits)))) span)

unfoldable pub uint_to_float : ℤ → Float → Float → ℕ → Float
uint_to_float x_int x_min x_max bits =
    let span = sub float32 x_max x_min in
    let offset = x_min in
    add float32
      (div float32 (mul float32 (of_int float32 x_int) span) (of_int float32 (pos (top bits))))
      offset
