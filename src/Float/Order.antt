-- ===== src/Float/Order.antt =====
-- The order of the floats, and how the sign acts on it.
use motor_test.Base.{◌≡◌, ◌≢◌, refl, true, false, arith}
use motor_test.Float.{Float, nan, inf, fin, lt, neg}

pub lt_irrefl : (a : Float) → lt a a ≡ false
unfolding lt
lt_irrefl nan = refl
lt_irrefl (inf true) = refl
lt_irrefl (inf false) = refl
lt_irrefl (fin s m) = ground arith

pub lt_asymm : (a b : Float) → lt a b ≡ true → lt b a ≡ false
unfolding lt
lt_asymm a b h = ground arith

pub lt_trans : (a b c : Float) → lt a b ≡ true → lt b c ≡ true → lt a c ≡ true
unfolding lt
lt_trans a b c h k = ground arith

-- What is below or equal to a number, over a number.
pub ge_trans : (a b c : Float) → b ≢ nan → lt a b ≡ false → lt b c ≡ false → lt a c ≡ false
unfolding lt
ge_trans a b c real h k = ground arith

pub lt-neg : (a b : Float) → lt (neg a) (neg b) ≡ lt b a
unfolding lt neg
lt-neg a b = ground arith

pub neg-neg : (a : Float) → neg (neg a) ≡ a
unfolding neg
neg-neg a = ground arith
