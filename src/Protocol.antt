-- ===== src/Protocol.antt =====
-- src/mit_protocol.c and .h: the eight bytes of a motor command on the CAN bus.
pub mod Layout
pub mod Command
pub mod Speed
use motor_test.Base.{ℕ, zero, suc, ◌+◌, ◌*◌, ◌/◌, ◌%◌, ◌^◌, List, [], ◌∷◌, Option, some, none}
use motor_test.Base.{bit_and, bit_or, set, true, false}
use motor_test.Base.Int.{ℤ, wrap}
use motor_test.Float.{Float, float32, lit}
use motor_test.Float.Convert.{float_bits}
use motor_test.MathOps.{fmaxf, fminf, float_to_uint}

pub record JointControl : Type 0 where
  pub p_des : Float
  pub v_des : Float
  pub kp : Float
  pub kd : Float
  pub t_ff : Float

pub record JointState : Type 0 where
  pub p : Float
  pub v : Float
  pub t : Float

abbrev pub kp_min : Float
unfolding lit
kp_min = lit float32 false 0 1

abbrev pub kp_max : Float
unfolding lit
kp_max = lit float32 false 500 1

abbrev pub kd_min : Float
unfolding lit
kd_min = lit float32 false 0 1

abbrev pub kd_max : Float
unfolding lit
kd_max = lit float32 false 5 1

abbrev pub p_min : Float
unfolding lit
p_min = lit float32 true 25 2

abbrev pub p_max : Float
unfolding lit
p_max = lit float32 false 25 2

abbrev pub v_min : Float
unfolding lit
v_min = lit float32 true 65 1

abbrev pub v_max : Float
unfolding lit
v_max = lit float32 false 65 1

abbrev pub t_min : Float
unfolding lit
t_min = lit float32 true 18 1

abbrev pub t_max : Float
unfolding lit
t_max = lit float32 false 18 1

-- Assignments to consecutive elements of `data`, from index `i` on, each cut to `uint8_t`.
unfoldable pub store : List ℕ → ℕ → List ℕ → List ℕ
store buf i [] = buf
store buf i (b ∷ bs) = store (set buf i (b % 2 ^ 8)) (i + 1) bs

-- `Zero`, `EnterMotorMode` and `ExitMotorMode`: seven bytes of ones, and the command's own.
unfoldable pub zero_frame : List ℕ → List ℕ
unfolding store
zero_frame buf = store buf 0 (0xFF ∷ 0xFF ∷ 0xFF ∷ 0xFF ∷ 0xFF ∷ 0xFF ∷ 0xFF ∷ 0xFE ∷ [])

unfoldable pub enter_motor_mode : List ℕ → List ℕ
unfolding store
enter_motor_mode buf = store buf 0 (0xFF ∷ 0xFF ∷ 0xFF ∷ 0xFF ∷ 0xFF ∷ 0xFF ∷ 0xFF ∷ 0xFC ∷ [])

unfoldable pub exit_motor_mode : List ℕ → List ℕ
unfolding store
exit_motor_mode buf = store buf 0 (0xFF ∷ 0xFF ∷ 0xFF ∷ 0xFF ∷ 0xFF ∷ 0xFF ∷ 0xFF ∷ 0xFD ∷ [])

-- The five fields as `uint16_t`, spread over the bytes.
unfoldable pub pack_fields : List ℕ → ℕ → ℕ → ℕ → ℕ → ℕ → List ℕ
unfolding store
pack_fields buf p_int v_int kp_int kd_int t_int = store buf 0 (
    p_int / 2 ^ 8
    ∷ bit_and p_int 0xFF
    ∷ v_int / 2 ^ 4
    ∷ bit_or (bit_and v_int 0xF * 2 ^ 4) (kp_int / 2 ^ 8)
    ∷ bit_and kp_int 0xFF
    ∷ kd_int / 2 ^ 4
    ∷ bit_or (bit_and kd_int 0xF * 2 ^ 4) (t_int / 2 ^ 8)
    ∷ bit_and t_int 0xFF
    ∷ [])

infixl 5 ◌>>=◌
abbrev pub ◌>>=◌ {ℓ κ} : {A : Type ℓ} {B : Type κ} → Option A → (A → Option B) → Option B
none >>= f = none
some a >>= f = f a

-- A float limited to a range and converted to a `uint16_t`; `none` is an undefined conversion.
unfoldable pub field : Float → Float → Float → ℕ → Option ℕ
field lo hi x bits = do n ← float_to_uint (fminf (fmaxf lo x) hi) lo hi bits; some (wrap (2 ^ 16) n)

unfoldable pub pack_cmd_new :
    List ℕ → JointControl → Float → Float → Float → Float → Float → Float → Option (List ℕ)
unfolding field
pack_cmd_new buf joint p_max p_min v_max v_min t_max t_min = do
  p_int ← field p_min p_max joint.p_des 16
  v_int ← field v_min v_max joint.v_des 12
  kp_int ← field kp_min kp_max joint.kp 12
  kd_int ← field kd_min kd_max joint.kd 12
  t_int ← field t_min t_max joint.t_ff 12
  some (pack_fields buf p_int v_int kp_int kd_int t_int)

unfoldable pub pack_cmd : List ℕ → JointControl → Option (List ℕ)
unfolding field
pack_cmd buf joint = do
  p_int ← field p_min p_max joint.p_des 16
  v_int ← field v_min v_max joint.v_des 12
  kp_int ← field kp_min kp_max joint.kp 12
  kd_int ← field kd_min kd_max joint.kd 12
  t_int ← field t_min t_max joint.t_ff 12
  some (pack_fields buf p_int v_int kp_int kd_int t_int)

-- The four bytes of the limited velocity as it lies in memory, least significant first, and zeros.
unfoldable pub pack_cmd_vel : List ℕ → JointControl → Float → Float → List ℕ
unfolding store
pack_cmd_vel buf joint v_max v_min =
    let vbuf = float_bits (fminf (fmaxf v_min joint.v_des) v_max) in
    store buf 0 (vbuf ∷ vbuf / 2 ^ 8 ∷ vbuf / 2 ^ 16 ∷ vbuf / 2 ^ 24 ∷ 0 ∷ 0 ∷ 0 ∷ 0 ∷ [])
