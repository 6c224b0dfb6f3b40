-- ===== src/Protocol/Speed.antt =====
-- The speed frame of protocol 1.
use motor_test.Base.{ℕ, ◌+◌, ◌*◌, ◌/◌, ◌%◌, ◌^◌, ◌≡◌, ◌≢◌, arith, List, [], ◌∷◌, length, false}
use motor_test.Float.{Float, nan, lt}
use motor_test.Float.Convert.{float_bits}
use motor_test.MathOps.Quantise.{InRange}
use motor_test.MathOps.Clamp.{clamped, clamped-InRange}
use motor_test.Protocol.{JointControl, pack_cmd_vel}
use motor_test.Protocol.Layout.{store_eight}

split_word :
    (w : ℕ)
    → w % 2 ^ 8
        + w / 2 ^ 8 % 2 ^ 8 * 2 ^ 8
        + w / 2 ^ 16 % 2 ^ 8 * 2 ^ 16
        + w / 2 ^ 24 % 2 ^ 8 * 2 ^ 24
      ≡ w % 2 ^ 32
split_word w = omega arith

-- For limits that are numbers in order and an eight-byte buffer, the frame holds the 32 bits of the
-- limited speed, least significant byte first, and four zeros; the limited speed is in range, whatever
-- speed was asked for.
pub pack_cmd_vel-bits :
    (buf : List ℕ) (joint : JointControl) (v_max v_min : Float)
    → length buf ≡ 8
    → v_min ≢ nan
    → v_max ≢ nan
    → lt v_max v_min ≡ false
    → (a b c d : ℕ) × (pack_cmd_vel buf joint v_max v_min ≡ a ∷ b ∷ c ∷ d ∷ 0 ∷ 0 ∷ 0 ∷ 0 ∷ [])
      × (a + b * 2 ^ 8 + c * 2 ^ 16 + d * 2 ^ 24
          ≡ float_bits (clamped v_min v_max joint.v_des) % 2 ^ 32)
      × InRange v_min v_max (clamped v_min v_max joint.v_des)
unfolding pack_cmd_vel
pack_cmd_vel-bits buf joint v_max v_min eight low high ordered =
    let w = float_bits (clamped v_min v_max joint.v_des) in
    (
      _,
      _,
      _,
      _,
      store_eight buf w (w / 2 ^ 8) (w / 2 ^ 16) (w / 2 ^ 24) 0 0 0 0 eight,
      split_word w,
      clamped-InRange v_min v_max low high ordered joint.v_des,
    )
