-- ===== src/Motor/Receive.antt =====
-- `motor_test_can_call` of src/test.c: a frame from the bus updates the state of the motor that sent it.
use motor_test.Base.{ℕ, zero, suc, ◌+◌, ◌*◌, ◌/◌, ◌^◌, ◌==◌, if◌then◌else◌, get_or, bit_and, bit_or}
use motor_test.Base.{List, [], ◌∷◌, Option, some, none}
use motor_test.Base.Int.{pos}
use motor_test.Float.{neg}
use motor_test.MathOps.{uint_to_float}
use motor_test.Protocol.{JointState}
use motor_test.Motor.{CanFrame, MotorMit, Motors, MotorIndex, first, second, motor_at, put_motor}
use motor_test.Motor.{motor_1_id, motor_2_id}

-- The structure laid over the receive buffer of 16 bytes: the identifier, least significant byte
-- first, the length, three bytes of padding and the eight data bytes.
unfoldable pub frame_of_bytes : List ℕ → CanFrame
frame_of_bytes buf = record {
  can_id = byte 0 + byte 1 * 2 ^ 8 + byte 2 * 2 ^ 16 + byte 3 * 2 ^ 24;
  can_dlc = byte 4;
  payload = byte 8 ∷ byte 9 ∷ byte 10 ∷ byte 11 ∷ byte 12 ∷ byte 13 ∷ byte 14 ∷ byte 15 ∷ [];
}
  where
    byte : ℕ → ℕ
    byte i = get_or buf i 0

-- The motor whose reply carries this identifier.
unfoldable pub sender : ℕ → Option MotorIndex
sender can_id =
    if can_id == bit_or motor_1_id 0x10
    then some first
    else if can_id == bit_or motor_2_id 0x10
    then some second
    else none

-- The characters that the loop prints of an unknown frame's data; `none` is a read past the data.
unfoldable pub print_data : ℕ → List ℕ → Option (List ℕ)
print_data zero bytes = some []
print_data (suc n) [] = none
print_data (suc n) (b ∷ bytes) = elim (print_data n bytes) [ none ↦ none | some cs ↦ some (b ∷ cs) ]

-- The state that a reply reports, by the motor's own limits.
unfoldable pub reported : MotorMit → List ℕ → JointState
reported motor bytes =
    let byte = λ (i : ℕ). get_or bytes i 0 in
    let p_int = bit_or (byte 1 * 2 ^ 8) (byte 2) in
    let v_int = bit_or (byte 3 * 2 ^ 4) (byte 4 / 2 ^ 4) in
    let i_int = bit_or (bit_and (byte 4) 0xF * 2 ^ 8) (byte 5) in
    record {
      p = uint_to_float (pos p_int) (neg motor.param.max_pos) motor.param.max_pos 16;
      v = uint_to_float (pos v_int) (neg motor.param.max_vel) motor.param.max_vel 12;
      t = uint_to_float (pos i_int) (neg motor.param.max_torque) motor.param.max_torque 12;
    }

-- The two kinds of frame: of a motor, whose state is set, and any other, which is printed.
unfoldable pub deliver : Motors → CanFrame → Option MotorIndex → Option (Motors × List ℕ)
deliver g frame none = elim (print_data frame.can_dlc frame.payload) [
  | none ↦ none
  | some printed ↦ some (g, printed)
]
deliver g frame (some i) =
    let motor = motor_at g i in
    some (put_motor g i (record motor { state = reported motor frame.payload }), [])

-- The motors afterwards, and what is printed of an unknown frame's data.
unfoldable pub motor_test_can_call : Motors → List ℕ → Option (Motors × List ℕ)
unfolding deliver
motor_test_can_call g buf = let frame = frame_of_bytes buf in deliver g frame (sender frame.can_id)
