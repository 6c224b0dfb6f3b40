-- ===== src/Bench/Laws.antt =====
-- What the actions of the shell commands keep.
use mathlib.Core.Path.{subst}
use mathlib.Core.Option.{some-injective}
use motor_test.Pid.{PidControl}
use motor_test.Base.{◌≡◌, refl, some}
use motor_test.Float.{Float}
use motor_test.Pid.Bounds.{IsBounded}
use motor_test.Motor.{MotorMit, Motors, MotorIndex, second, motor_at, put_motor}
use motor_test.Motor.Sound.{AreSound, AreSound-at, put-AreSound, IsSound-same}
use motor_test.Bench.{
  Action, set_tor, set_vel, set_enable, set_protocol, set_des, set_kp, set_ki, sleep,
}
use motor_test.Bench.{fault, perform}

-- The controller's limits and limited quantities are all that its bounds are about.
same_bounds :
    {pid : PidControl} {des kp ki : Float}
    → IsBounded pid
    → IsBounded (record pid { des = des; kp = kp; ki = ki })
same_bounds b = record {
  limits = record {
    error_limit = b.limits.error_limit;
    error_all_limit = b.limits.error_all_limit;
    output_limit = b.limits.output_limit;
  };
  error_bounded = b.error_bounded;
  error_all_bounded = b.error_all_bounded;
  output_bounded = b.output_bounded;
}

module _ (g h : Motors) (s : AreSound g) where
  -- A write beside the frame, the limits and the controller.
  changed-AreSound :
      (i : MotorIndex) (m : MotorMit)
      → (motor_at g i).can_tx ≡ m.can_tx
      → (motor_at g i).param ≡ m.param
      → (motor_at g i).pid ≡ m.pid
      → some (put_motor g i m) ≡ some h
      → AreSound h
  changed-AreSound i m frame limits pid e =
      let sound = IsSound-same i (motor_at g i) m frame limits (AreSound-at g i s) in
      subst AreSound (some-injective _ _ e) (put-AreSound g i m s sound pid)

  -- A write to the controller's desired speed or gains.
  retuned-AreSound :
      (m : MotorMit)
      → g.motor1.can_tx ≡ m.can_tx
      → g.motor1.param ≡ m.param
      → IsBounded m.pid
      → some (put_motor g second m) ≡ some h
      → AreSound h
  retuned-AreSound m frame limits b e =
      let sound = IsSound-same second g.motor1 m frame limits s.sound1 in
      subst AreSound (some-injective _ _ e)
        (record { sound0 = s.sound0; sound1 = sound; bounded = b })

-- No action touches a motor's frame, its limits or the controller's limits and limited quantities.
pub perform-AreSound : (a : Action) (g h : Motors) → AreSound g → perform a g ≡ some h → AreSound h
unfolding perform
perform-AreSound (set_tor i tor) g h s e = changed-AreSound g h s i _ refl refl refl e
perform-AreSound (set_vel i vel) g h s e = changed-AreSound g h s i _ refl refl refl e
perform-AreSound (set_enable i n) g h s e = changed-AreSound g h s i _ refl refl refl e
perform-AreSound (set_protocol i p) g h s e = changed-AreSound g h s i _ refl refl refl e
perform-AreSound (set_des des) g h s e =
    retuned-AreSound g h s _ refl refl (same_bounds s.bounded) e
perform-AreSound (set_kp kp) g h s e = retuned-AreSound g h s _ refl refl (same_bounds s.bounded) e
perform-AreSound (set_ki ki) g h s e = retuned-AreSound g h s _ refl refl (same_bounds s.bounded) e
perform-AreSound (sleep us) g h s e = subst AreSound (some-injective _ _ e) s
perform-AreSound fault g h s e = cc
