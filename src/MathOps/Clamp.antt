-- ===== src/MathOps/Clamp.antt =====
-- `fminf(fmaxf(lo, x), hi)`, as every command field is limited before it is packed.
use motor_test.Base.{◌≡◌, ◌≢◌, arith, true, false}
use motor_test.Float.{Float, nan, lt}
use motor_test.MathOps.{fminf, fmaxf}
use motor_test.MathOps.Quantise.{InRange}

abbrev pub clamped : Float → Float → Float → Float
clamped lo hi x = fminf (fmaxf lo x) hi

module _ (lo hi : Float) (low : lo ≢ nan) (high : hi ≢ nan) (ordered : lt hi lo ≡ false) where
  -- Whatever the argument, a NaN and the infinities too, the result is in range.
  pub clamped-InRange : (x : Float) → InRange lo hi (clamped lo hi x)
  unfolding fminf fmaxf lt
  clamped-InRange x = record {
    real = ground arith;
    from_low = ground arith;
    to_high = ground arith;
  }

-- The three cases of the limiting, the result named in each: a number from the upper bound on, or a
-- NaN, gives the upper bound.
pub clamped_below : (lo hi x : Float) → lt x lo ≡ true → lt lo hi ≡ true → clamped lo hi x ≡ lo
unfolding fminf fmaxf
clamped_below lo hi x under proper = ground arith

pub clamped_inside : (lo hi x : Float) → lt x lo ≡ false → lt x hi ≡ true → clamped lo hi x ≡ x
unfolding fminf fmaxf
clamped_inside lo hi x from_low under = ground arith

pub clamped_above : (lo hi x : Float) → lt x lo ≡ false → lt x hi ≡ false → clamped lo hi x ≡ hi
unfolding fminf fmaxf
clamped_above lo hi x from_low not_under = ground arith

-- Limiting keeps the order of numbers.
pub clamped_mono :
    (lo hi x y : Float)
    → lo ≢ nan
    → hi ≢ nan
    → x ≢ nan
    → y ≢ nan
    → lt hi lo ≡ false
    → lt y x ≡ false
    → lt (clamped lo hi y) (clamped lo hi x) ≡ false
unfolding fminf fmaxf lt
clamped_mono lo hi x y low high some_x some_y ordered h = ground arith
