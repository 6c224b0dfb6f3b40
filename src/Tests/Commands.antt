-- ===== src/Tests/Commands.antt =====
-- The theorems on floats, commands and the controller at concrete arguments.
use motor_test.Base.{All, ℕ, ◌≤◌, ◌≡◌, ◌≢◌, refl, arith, true, false, some, List, [], ◌∷◌, length}
use motor_test.Base.Int.{pos}
use motor_test.Float.{mul, sub, add, neg, inf, nan, float32, lit, lt, magnitude, zero_float}
use motor_test.MathOps.{top, float_to_uint}
use motor_test.MathOps.Quantise.{InRange, code_of, float_to_uint-InRange}
use motor_test.MathOps.Clamp.{clamped, clamped-InRange}
use motor_test.Protocol.{
  JointControl, p_min, p_max, v_min, v_max, t_min, t_max, pack_cmd, pack_cmd_new,
}
use motor_test.Protocol.Layout.{Fields, FieldsFit, read_fields, pack_all, read_fields-pack}
use motor_test.Protocol.Command.{
  codes, p-ProperRange, v-ProperRange, t-ProperRange, pack_cmd_new-total,
}
use motor_test.Protocol.Command.{pack_cmd-total, pack_cmd_new_mono, pack_cmd_new-nan_torque}
use motor_test.Base.{◌+◌, ◌*◌, ◌^◌, ◌%◌}
use motor_test.Float.Convert.{float_bits}
use motor_test.Protocol.{pack_cmd_vel}
use motor_test.Protocol.Speed.{pack_cmd_vel-bits}
use motor_test.Pid.{PidControl, pid_cleared}
use motor_test.Pid.Bounds.{HasLimits, run}
use motor_test.Pid.Range.{HasRoom, IsInRange, IsRound, run-IsInRange}
use motor_test.Pid.Faults.{run-nan}

abbrev blank : List ℕ
blank = 0 ∷ 0 ∷ 0 ∷ 0 ∷ 0 ∷ 0 ∷ 0 ∷ 0 ∷ []

abbrev push_joint : JointControl
push_joint = record {
  p_des = lit float32 false 3 1;
  v_des = lit float32 true 100 1;
  kp = lit float32 false 50 1;
  kd = lit float32 false 1 1;
  t_ff = lit float32 false 10 1;
}

abbrev nan_joint : JointControl
nan_joint = record push_joint { t_ff = nan }

abbrev harder_joint : JointControl
harder_joint = record push_joint { t_ff = lit float32 false 12 1 }

abbrev some_fields : Fields
some_fields = record { p_int = 40000; v_int = 2047; kp_int = 409; kd_int = 819; t_int = 4095 }

read_fields-pack_example : read_fields (pack_all blank some_fields) ≡ some_fields
read_fields-pack_example = read_fields-pack blank some_fields refl (omega arith)

pack_cmd-total_example :
    (bytes : List ℕ) × (pack_cmd blank nan_joint ≡ some bytes)
    × (read_fields bytes ≡ codes nan_joint p_max p_min v_max v_min t_max t_min)
    × FieldsFit (read_fields bytes)
    × (length bytes ≡ 8)
pack_cmd-total_example = pack_cmd-total blank nan_joint refl

pack_cmd_new-total_example :
    (bytes : List ℕ) × (pack_cmd_new blank push_joint p_max p_min v_max v_min t_max t_min
      ≡ some bytes)
    × (read_fields bytes ≡ codes push_joint p_max p_min v_max v_min t_max t_min)
    × FieldsFit (read_fields bytes)
    × (length bytes ≡ 8)
pack_cmd_new-total_example =
    pack_cmd_new-total blank push_joint p_max p_min v_max v_min t_max t_min p-ProperRange
      v-ProperRange t-ProperRange refl

pack_cmd_new-nan_torque_example :
    pack_cmd_new blank nan_joint p_max p_min v_max v_min t_max t_min
    ≡ pack_cmd_new blank (record nan_joint { t_ff = t_max }) p_max p_min v_max v_min t_max t_min
pack_cmd_new-nan_torque_example =
    pack_cmd_new-nan_torque blank nan_joint p_max p_min v_max v_min t_max t_min t-ProperRange refl

abbrev push_packed : List ℕ
push_packed =
    (pack_cmd_new-total blank push_joint p_max p_min v_max v_min t_max t_min p-ProperRange
      v-ProperRange t-ProperRange refl).0

abbrev harder_packed : List ℕ
harder_packed =
    (pack_cmd_new-total blank harder_joint p_max p_min v_max v_min t_max t_min p-ProperRange
      v-ProperRange t-ProperRange refl).0

is_number : lit float32 false 10 1 ≢ nan
unfolding lit magnitude
is_number = λ e. cc

harder_is_number : lit float32 false 12 1 ≢ nan
unfolding lit magnitude
harder_is_number = λ e. cc

not_smaller : lt (lit float32 false 12 1) (lit float32 false 10 1) ≡ false
unfolding lt lit magnitude
not_smaller = refl

pack_cmd_new_mono_example : (read_fields push_packed).t_int ≤ (read_fields harder_packed).t_int
pack_cmd_new_mono_example =
    pack_cmd_new_mono blank push_joint harder_joint p_max p_min v_max v_min t_max t_min push_packed
      harder_packed refl p-ProperRange v-ProperRange t-ProperRange is_number harder_is_number
      not_smaller
      (pack_cmd_new-total blank push_joint p_max p_min v_max v_min t_max t_min p-ProperRange
        v-ProperRange t-ProperRange refl).1
      (pack_cmd_new-total blank harder_joint p_max p_min v_max v_min t_max t_min p-ProperRange
        v-ProperRange t-ProperRange refl).1

torque-InRange : InRange t_min t_max (lit float32 false 10 1)
unfolding lt lit magnitude
torque-InRange = record { real = λ e. cc; from_low = refl; to_high = refl }

float_to_uint-InRange_example :
    (float_to_uint (lit float32 false 10 1) t_min t_max 12
      ≡ some (pos (code_of t_min t_max (lit float32 false 10 1) 12)))
    × (code_of t_min t_max (lit float32 false 10 1) 12 ≤ top 12)
float_to_uint-InRange_example =
    float_to_uint-InRange t_min t_max (lit float32 false 10 1) 12 (omega arith) t-ProperRange
      torque-InRange

low_real : t_min ≢ nan
unfolding lit magnitude
low_real = λ e. cc

high_real : t_max ≢ nan
unfolding lit magnitude
high_real = λ e. cc

torques_ordered : lt t_max t_min ≡ false
unfolding lt lit magnitude
torques_ordered = refl

clamped-InRange_example : InRange t_min t_max (clamped t_min t_max nan)
clamped-InRange_example = clamped-InRange t_min t_max low_real high_real torques_ordered nan

abbrev limited_pid : PidControl
limited_pid = record pid_cleared {
  kp = lit float32 false 1 1;
  ki = lit float32 false 1 1;
  des = lit float32 false 100 1;
  output_max = lit float32 false 40 1;
  error_all_max = lit float32 false 400 1;
  error_max = lit float32 false 4 1;
}

limited_pid-HasLimits : HasLimits limited_pid
unfolding lt lit magnitude
limited_pid-HasLimits = record {
  error_limit = record { real = λ e. cc; not_negative = refl };
  error_all_limit = record { real = λ e. cc; not_negative = refl };
  output_limit = record { real = λ e. cc; not_negative = refl };
}

limited_pid-HasRoom : HasRoom limited_pid
unfolding lit magnitude mul sub add neg
limited_pid-HasRoom = record {
  limits = limited_pid-HasLimits;
  error_finite = tt;
  error_all_finite = tt;
  error_gain = tt;
  error_all_gain = tt;
  span = tt;
  slope_gain = tt;
}

limited_pid-IsInRange : IsInRange limited_pid
unfolding lt lit magnitude neg
limited_pid-IsInRange = record {
  error_in = record { real = λ e. cc; from_low = refl; to_high = refl };
  error_all_in = record { real = λ e. cc; from_low = refl; to_high = refl };
  output_in = record { real = λ e. cc; from_low = refl; to_high = refl };
}

-- A desired value of 100, then an infinite one.
run-IsInRange_example :
    IsInRange
      (run limited_pid ((lit float32 false 100 1, zero_float) ∷ (inf true, zero_float) ∷ []))
run-IsInRange_example =
    run-IsInRange limited_pid ((lit float32 false 100 1, zero_float) ∷ (inf true, zero_float) ∷ [])
      limited_pid-HasRoom limited_pid-IsInRange rounds-IsRound
  where
    rounds-IsRound :
        All IsRound ((lit float32 false 100 1, zero_float) ∷ (inf true, zero_float) ∷ [])
    rounds-IsRound = ((unfold lit magnitude in λ e. cc, tt), ((λ e. cc, tt), tt))

abbrev nan_pid : PidControl
nan_pid = record limited_pid { error_all = nan }

run-nan_example :
    ((run nan_pid ((zero_float, zero_float) ∷ (zero_float, zero_float) ∷ [])).error_all ≡ nan)
    × ((run nan_pid ((zero_float, zero_float) ∷ (zero_float, zero_float) ∷ [])).output ≡ nan)
run-nan_example = run-nan nan_pid ((zero_float, zero_float) ∷ []) zero_float zero_float refl

low_speed_real : v_min ≢ nan
unfolding lit magnitude
low_speed_real = λ e. cc

high_speed_real : v_max ≢ nan
unfolding lit magnitude
high_speed_real = λ e. cc

speeds_ordered : lt v_max v_min ≡ false
unfolding lt lit magnitude
speeds_ordered = refl

pack_cmd_vel-bits_example :
    (a b c d : ℕ) × (pack_cmd_vel blank push_joint v_max v_min ≡ a ∷ b ∷ c ∷ d ∷ 0 ∷ 0 ∷ 0 ∷ 0 ∷ [])
    × (a + b * 2 ^ 8 + c * 2 ^ 16 + d * 2 ^ 24
        ≡ float_bits (clamped v_min v_max push_joint.v_des) % 2 ^ 32)
    × InRange v_min v_max (clamped v_min v_max push_joint.v_des)
pack_cmd_vel-bits_example =
    pack_cmd_vel-bits blank push_joint v_max v_min refl low_speed_real high_speed_real
      speeds_ordered
