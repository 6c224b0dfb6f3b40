-- ===== src/Protocol/Command.antt =====
-- `pack_cmd_new` and `pack_cmd` from the joint's command to the bytes.
use mathlib.Core.Option.{some-injective}
use motor_test.Float.Order.{lt_irrefl}
use motor_test.Base.{ℕ, ◌≤◌, ◌≡◌, ◌≢◌, refl, sym, ◌∙◌, arith, false, some}
use motor_test.Base.{List, length}
use motor_test.Float.{Float, nan, lt, lit, magnitude}
use motor_test.MathOps.{top}
use motor_test.MathOps.Quantise.{ProperRange, code_of, float_to_uint-InRange, code_mono}
use motor_test.MathOps.Quantise.{ProperRange-low, ProperRange-high, ProperRange-ordered}
use motor_test.MathOps.Clamp.{clamped, clamped-InRange, clamped_mono}
use motor_test.MathOps.Clamp.{clamped_above}
use motor_test.Protocol.{
  JointControl, field, pack_cmd, pack_cmd_new, kp_min, kp_max, kd_min, kd_max,
}
use motor_test.Protocol.{p_min, p_max, v_min, v_max, t_min, t_max}
use motor_test.Protocol.Layout.{
  Fields, FieldsFit, pack_all, read_fields, read_fields-pack, length-pack,
}

-- One field: whatever the float, a NaN too, the code of the limited number.
field_lem :
    (lo hi x : Float) (bits : ℕ)
    → top bits ≤ 65535
    → ProperRange lo hi
    → (field lo hi x bits ≡ some (code_of lo hi (clamped lo hi x) bits))
      × (code_of lo hi (clamped lo hi x) bits ≤ top bits)
unfolding field
field_lem lo hi x bits narrow p =
    let limited =
      clamped-InRange lo hi (ProperRange-low lo hi p) (ProperRange-high lo hi p)
        (ProperRange-ordered lo hi p) x in
    let converted = float_to_uint-InRange lo hi (clamped lo hi x) bits narrow p limited in
    (rw (converted.0) (ground (arith, converted.1)), converted.1)

-- The codes of a command, each of its own limited field.
abbrev pub codes : JointControl → Float → Float → Float → Float → Float → Float → Fields
codes joint p_max p_min v_max v_min t_max t_min = record {
  p_int = code_of p_min p_max (clamped p_min p_max joint.p_des) 16;
  v_int = code_of v_min v_max (clamped v_min v_max joint.v_des) 12;
  kp_int = code_of kp_min kp_max (clamped kp_min kp_max joint.kp) 12;
  kd_int = code_of kd_min kd_max (clamped kd_min kd_max joint.kd) 12;
  t_int = code_of t_min t_max (clamped t_min t_max joint.t_ff) 12;
}

kp-ProperRange : ProperRange kp_min kp_max
unfolding lit magnitude
kp-ProperRange = omega arith

kd-ProperRange : ProperRange kd_min kd_max
unfolding lit magnitude
kd-ProperRange = omega arith

module _ (buf : List ℕ) (joint : JointControl) (p_max p_min v_max v_min t_max t_min : Float)
    (p : ProperRange p_min p_max) (v : ProperRange v_min v_max) (t : ProperRange t_min t_max) where
  codes-FieldsFit : FieldsFit (codes joint p_max p_min v_max v_min t_max t_min)
  codes-FieldsFit = (
    ground (arith, (field_lem p_min p_max joint.p_des 16 (omega arith) p).1),
    ground (arith, (field_lem v_min v_max joint.v_des 12 (omega arith) v).1),
    ground (arith, (field_lem kp_min kp_max joint.kp 12 (omega arith) kp-ProperRange).1),
    ground (arith, (field_lem kd_min kd_max joint.kd 12 (omega arith) kd-ProperRange).1),
    ground (arith, (field_lem t_min t_max joint.t_ff 12 (omega arith) t).1),
  )

  pack_cmd_new-codes :
      pack_cmd_new buf joint p_max p_min v_max v_min t_max t_min
      ≡ some (pack_all buf (codes joint p_max p_min v_max v_min t_max t_min))
  unfolding pack_cmd_new
  pack_cmd_new-codes = rw (
    (field_lem p_min p_max joint.p_des 16 (omega arith) p).0,
    (field_lem v_min v_max joint.v_des 12 (omega arith) v).0,
    (field_lem kp_min kp_max joint.kp 12 (omega arith) kp-ProperRange).0,
    (field_lem kd_min kd_max joint.kd 12 (omega arith) kd-ProperRange).0,
    (field_lem t_min t_max joint.t_ff 12 (omega arith) t).0,
  )

  -- For proper limits and an eight-byte buffer, every command, whatever floats it holds, is packed
  -- with no undefined conversion, the eight bytes hold fields that fit, and the receiver reads the
  -- codes of the limited fields.
  pub pack_cmd_new-total :
      length buf ≡ 8
      → (bytes : List ℕ) × (pack_cmd_new buf joint p_max p_min v_max v_min t_max t_min ≡ some bytes)
        × (read_fields bytes ≡ codes joint p_max p_min v_max v_min t_max t_min)
        × FieldsFit (read_fields bytes)
        × (length bytes ≡ 8)
  pack_cmd_new-total eight =
      let f : Fields = codes joint p_max p_min v_max v_min t_max t_min in
      let back = read_fields-pack buf f eight codes-FieldsFit in
      (
        pack_all buf f,
        pack_cmd_new-codes,
        back,
        rw back codes-FieldsFit,
        length-pack buf f eight codes-FieldsFit,
      )

-- `pack_cmd` is `pack_cmd_new` at the limits of the header, so it is total too.
pub p-ProperRange : ProperRange p_min p_max
unfolding lit magnitude
p-ProperRange = omega arith

pub v-ProperRange : ProperRange v_min v_max
unfolding lit magnitude
v-ProperRange = omega arith

pub t-ProperRange : ProperRange t_min t_max
unfolding lit magnitude
t-ProperRange = omega arith

-- With an eight-byte buffer, `pack_cmd` has no undefined conversion, whatever floats the command
-- holds, the eight bytes hold fields that fit, and the receiver reads the codes of the fields limited to
-- the header's ranges.
pub pack_cmd-total :
    (buf : List ℕ) (joint : JointControl)
    → length buf ≡ 8
    → (bytes : List ℕ) × (pack_cmd buf joint ≡ some bytes)
      × (read_fields bytes ≡ codes joint p_max p_min v_max v_min t_max t_min)
      × FieldsFit (read_fields bytes)
      × (length bytes ≡ 8)
unfolding pack_cmd
pack_cmd-total buf joint eight =
    unfold pack_cmd_new in
    pack_cmd_new-total buf joint p_max p_min v_max v_min t_max t_min p-ProperRange v-ProperRange
      t-ProperRange eight

nan_clamped : (lo hi : Float) → ProperRange lo hi → clamped lo hi nan ≡ clamped lo hi hi
unfolding lt
nan_clamped lo hi p =
    clamped_top ∙ sym (clamped_above lo hi hi (ProperRange-ordered lo hi p) (lt_irrefl hi))
  where
    clamped_top : clamped lo hi nan ≡ hi
    clamped_top = clamped_above lo hi nan refl refl

-- A NaN torque is packed as the full positive torque.
pub pack_cmd_new-nan_torque :
    (buf : List ℕ) (joint : JointControl) (p_max p_min v_max v_min t_max t_min : Float)
    → ProperRange t_min t_max
    → joint.t_ff ≡ nan
    → pack_cmd_new buf joint p_max p_min v_max v_min t_max t_min
      ≡ pack_cmd_new buf (record joint { t_ff = t_max }) p_max p_min v_max v_min t_max t_min
unfolding pack_cmd_new
pack_cmd_new-nan_torque buf joint p_max p_min v_max v_min t_max t_min p e =
    rw (e, nan_clamped t_min t_max p)

field_code_mono :
    (lo hi x y : Float) (bits : ℕ)
    → ProperRange lo hi
    → x ≢ nan
    → y ≢ nan
    → lt y x ≡ false
    → code_of lo hi (clamped lo hi x) bits ≤ code_of lo hi (clamped lo hi y) bits
field_code_mono lo hi x y bits p some_x some_y h =
    let low = ProperRange-low lo hi p in
    let high = ProperRange-high lo hi p in
    let ordered = ProperRange-ordered lo hi p in
    code_mono lo hi (clamped lo hi x) (clamped lo hi y) bits p
      (clamped-InRange lo hi low high ordered x) (clamped-InRange lo hi low high ordered y)
      (clamped_mono lo hi x y low high some_x some_y ordered h)

-- For proper limits, of two commands whose torques are numbers the one whose torque is not smaller
-- is read by the receiver with a torque code that is not smaller.
pub pack_cmd_new_mono :
    (buf : List ℕ) (joint next : JointControl) (p_max p_min v_max v_min t_max t_min : Float)
    (bytes later : List ℕ)
    → length buf ≡ 8
    → ProperRange p_min p_max
    → ProperRange v_min v_max
    → ProperRange t_min t_max
    → joint.t_ff ≢ nan
    → next.t_ff ≢ nan
    → lt next.t_ff joint.t_ff ≡ false
    → pack_cmd_new buf joint p_max p_min v_max v_min t_max t_min ≡ some bytes
    → pack_cmd_new buf next p_max p_min v_max v_min t_max t_min ≡ some later
    → (read_fields bytes).t_int ≤ (read_fields later).t_int
pack_cmd_new_mono buf joint next p_max p_min v_max v_min t_max t_min bytes later eight p v t
      some_joint some_next h packed packed_later =
    let first = pack_cmd_new-total buf joint p_max p_min v_max v_min t_max t_min p v t eight in
    let second = pack_cmd_new-total buf next p_max p_min v_max v_min t_max t_min p v t eight in
    let same : bytes ≡ first.0 = some-injective _ _ (sym packed ∙ first.1) in
    let same_later : later ≡ second.0 = some-injective _ _ (sym packed_later ∙ second.1) in
    rw (same, same_later, first.2, second.2)
      (field_code_mono t_min t_max joint.t_ff next.t_ff 12 t some_joint some_next h)
