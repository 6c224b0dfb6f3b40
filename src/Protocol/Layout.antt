-- ===== src/Protocol/Layout.antt =====
-- The layout of a command's bytes: what a receiver reads from them.
use motor_test.Base.{ℕ, ◌+◌, ◌*◌, ◌/◌, ◌%◌, ◌^◌, ◌<◌, ◌≡◌, refl, arith}
use motor_test.Base.{List, [], ◌∷◌, length, get_or}
use motor_test.Base.Bits.{or_low, and_mask}
use motor_test.Base.{bit_and, bit_or}
use motor_test.Protocol.{pack_fields, store}

-- The five fields, as the motor's side of the protocol takes them from the bytes.
pub record Fields : Type 0 where
  pub p_int : ℕ
  pub v_int : ℕ
  pub kp_int : ℕ
  pub kd_int : ℕ
  pub t_int : ℕ

abbrev pub byte_at : List ℕ → ℕ → ℕ
byte_at buf i = get_or buf i 0

unfoldable pub read_fields : List ℕ → Fields
read_fields buf = record {
  p_int = byte_at buf 0 * 256 + byte_at buf 1;
  v_int = byte_at buf 2 * 16 + byte_at buf 3 / 16;
  kp_int = byte_at buf 3 % 16 * 256 + byte_at buf 4;
  kd_int = byte_at buf 5 * 16 + byte_at buf 6 / 16;
  t_int = byte_at buf 6 % 16 * 256 + byte_at buf 7;
}

abbrev pub FieldsFit : Fields → Type 0
FieldsFit f =
    (f.p_int < 2 ^ 16)
    × (f.v_int < 2 ^ 12)
    × (f.kp_int < 2 ^ 12)
    × (f.kd_int < 2 ^ 12)
    × (f.t_int < 2 ^ 12)

abbrev pub pack_all : List ℕ → Fields → List ℕ
pack_all buf f = pack_fields buf f.p_int f.v_int f.kp_int f.kd_int f.t_int

nibbles :
    (a b : ℕ) → b < 2 ^ 12 → bit_or (bit_and a 0xF * 2 ^ 4) (b / 2 ^ 8) ≡ a % 16 * 16 + b / 256
nibbles a b h = ground (arith, and_mask 4 a, or_low (a % 16) 4 (b / 256) (omega arith))

-- Eight stores into an eight-byte buffer leave nothing of what it held.
pub store_eight :
    (buf : List ℕ) (a b c d e f g h : ℕ)
    → length buf ≡ 8
    → store buf 0 (a ∷ b ∷ c ∷ d ∷ e ∷ f ∷ g ∷ h ∷ [])
      ≡ a % 256 ∷ b % 256 ∷ c % 256 ∷ d % 256 ∷ e % 256 ∷ f % 256 ∷ g % 256 ∷ h % 256 ∷ []
unfolding store
store_eight (_ ∷ _ ∷ _ ∷ _ ∷ _ ∷ _ ∷ _ ∷ _ ∷ []) a b c d e f g h eight = refl
store_eight _ a b c d e f g h eight = absurd (omega arith)

-- The bytes of the packed fields, by arithmetic.
pub pack_fields_bytes :
    (buf : List ℕ) (f : Fields)
    → length buf ≡ 8
    → FieldsFit f
    → pack_all buf f
      ≡ f.p_int / 256
        ∷ f.p_int % 256
        ∷ f.v_int / 16
        ∷ (f.v_int % 16 * 16 + f.kp_int / 256)
        ∷ f.kp_int % 256
        ∷ f.kd_int / 16
        ∷ (f.kd_int % 16 * 16 + f.t_int / 256)
        ∷ f.t_int % 256
        ∷ []
unfolding pack_fields
pack_fields_bytes buf f eight fit =
    rw
      (
        store_eight buf _ _ _ _ _ _ _ _ eight,
        nibbles f.v_int f.kp_int fit.2,
        nibbles f.kd_int f.t_int fit.4,
        and_mask 8 f.p_int,
        and_mask 8 f.kp_int,
        and_mask 8 f.t_int,
      )
      (ground arith)

-- Packing fields of 16, 12, 12, 12 and 12 bits into an eight-byte buffer loses nothing: the
-- receiver reads them back.
pub read_fields-pack :
    (buf : List ℕ) (f : Fields) → length buf ≡ 8 → FieldsFit f → read_fields (pack_all buf f) ≡ f
unfolding read_fields
read_fields-pack buf f eight fit = rw (pack_fields_bytes buf f eight fit) (ground arith)

pub length-pack :
    (buf : List ℕ) (f : Fields) → length buf ≡ 8 → FieldsFit f → length (pack_all buf f) ≡ 8
length-pack buf f eight fit = rw (pack_fields_bytes buf f eight fit)
