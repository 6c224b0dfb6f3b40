-- ===== src/Motor/Replies.antt =====
-- What a received frame does to the motors.
use motor_test.Base.{
  ℕ, zero, suc, ◌+◌, ◌*◌, ◌/◌, ◌%◌, ◌^◌, ◌≤◌, ◌<◌, ◌≡◌, refl, ap, arith, if◌then◌else◌, ◌==◌,
}
use motor_test.Base.{List, [], ◌∷◌, length, All, some, none, Bool-cases, inl, inr}
use motor_test.Base.Int.{pos}
use motor_test.Base.Bits.{or_low, and_mask}
use motor_test.Base.Memory.{take}
use motor_test.Float.{neg}
use motor_test.MathOps.{uint_to_float}
use motor_test.Motor.{CanFrame, MotorMit, Motors}
use motor_test.Motor.Receive.{
  frame_of_bytes, sender, print_data, reported, deliver, motor_test_can_call,
}

abbrev pub IsByte : ℕ → Type 0
IsByte b = b < 256

-- A motor's state from the bytes of its reply, by its own limits: after one byte the position in two,
-- then a byte and a half each for speed and torque, most significant first.
abbrev pub told : MotorMit → List ℕ → MotorMit
told m (_ ∷ a ∷ b ∷ c ∷ d ∷ e ∷ _) = record m {
  state = record {
    p = uint_to_float (pos (a * 256 + b)) (neg m.param.max_pos) m.param.max_pos 16;
    v = uint_to_float (pos (c * 16 + d / 16)) (neg m.param.max_vel) m.param.max_vel 12;
    t = uint_to_float (pos (d % 16 * 256 + e)) (neg m.param.max_torque) m.param.max_torque 12;
  };
}
told m other = m

-- The first motor replies with the identifier 0x12 and the second with 0x11; of any other frame as many
-- bytes as it claims are printed.
abbrev pub handled : Motors → ℕ → ℕ → List ℕ → Motors × List ℕ
handled g id n bytes =
    if id == 0x12
    then (record g { motor0 = told g.motor0 bytes }, [])
    else if id == 0x11
    then (record g { motor1 = told g.motor1 bytes }, [])
    else (g, take n bytes)

print_data-take :
    (n : ℕ) (bytes : List ℕ) → n ≤ length bytes → print_data n bytes ≡ some (take n bytes)
unfolding print_data
print_data-take zero bytes h = refl
print_data-take (suc n) [] h = absurd (omega arith)
print_data-take (suc n) (b ∷ bytes) h = rw (print_data-take n bytes (omega arith), print_data) refl

unknown-printed :
    (g : Motors) (frame : CanFrame) (printed : List ℕ)
    → print_data frame.can_dlc frame.payload ≡ some printed
    → deliver g frame none ≡ some (g, printed)
unfolding deliver
unknown-printed g frame printed e = rw (e, deliver) refl

reported-told :
    (m : MotorMit) (z a b c d e x y : ℕ)
    → All IsByte (z ∷ a ∷ b ∷ c ∷ d ∷ e ∷ x ∷ y ∷ [])
    → record m { state = reported m (z ∷ a ∷ b ∷ c ∷ d ∷ e ∷ x ∷ y ∷ []) }
      ≡ told m (z ∷ a ∷ b ∷ c ∷ d ∷ e ∷ x ∷ y ∷ [])
unfolding reported
reported-told m z a b c d e x y h =
    let low = h.1.1.0 in
    let upper = h.1.1.1.1.0 in
    let last = h.1.1.1.1.1.0 in
    rw
      (
        or_low a 8 b low,
        or_low c 4 (d / 2 ^ 4) (omega arith),
        and_mask 4 d,
        or_low (d % 2 ^ 4) 8 e last,
      )
      refl

-- A buffer of sixteen bytes with a frame of at most eight is handled without a read past its data: a reply of
-- a motor, 0x12 of the first and 0x11 of the second, sets that motor's position, speed and torque to the
-- numbers of 16, 12 and 12 bits that stand in its bytes, most significant byte first, scaled by the
-- motor's limits, and nothing else; any other frame changes no motor, and its bytes are printed.
pub motor_test_can_call-handled :
    (g : Motors) (i j k l n u v w z a b c d e x y : ℕ)
    → n ≤ 8
    → All IsByte (z ∷ a ∷ b ∷ c ∷ d ∷ e ∷ x ∷ y ∷ [])
    → let bytes = z ∷ a ∷ b ∷ c ∷ d ∷ e ∷ x ∷ y ∷ [] in
      motor_test_can_call g (i ∷ j ∷ k ∷ l ∷ n ∷ u ∷ v ∷ w ∷ bytes)
      ≡ some (handled g (i + j * 256 + k * 65536 + l * 16777216) n bytes)
unfolding motor_test_can_call frame_of_bytes sender deliver
motor_test_can_call-handled g i j k l n u v w z a b c d e x y short h =
    let id = i + j * 256 + k * 65536 + l * 16777216 in
    elim (Bool-cases (id == 0x12)) [
      | inl p ↦
          rw p (
            ap (λ m. some (record g { motor0 = m }, [])) (reported-told g.motor0 z a b c d e x y h))
      | inr p ↦ elim (Bool-cases (id == 0x11)) [
        | inl q ↦
            rw (p, q)
              (ap (λ m. some (record g { motor1 = m }, []))
                (reported-told g.motor1 z a b c d e x y h))
        | inr q ↦
            rw (p, q)
              (unknown-printed g
                (frame_of_bytes
                  (i ∷ j ∷ k ∷ l ∷ n ∷ u ∷ v ∷ w ∷ z ∷ a ∷ b ∷ c ∷ d ∷ e ∷ x ∷ y ∷ []))
                (take n (z ∷ a ∷ b ∷ c ∷ d ∷ e ∷ x ∷ y ∷ []))
                (print_data-take n (z ∷ a ∷ b ∷ c ∷ d ∷ e ∷ x ∷ y ∷ []) (omega arith)))
      ]
    ]
