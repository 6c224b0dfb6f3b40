-- ===== src/Pid/Faults.antt =====
-- A NaN in the controller's accumulated error.
use motor_test.Base.{◌≡◌, refl, arith, List, [], ◌∷◌, ◌++◌}
use motor_test.Float.{Float, Format, nan, add, sub, mul}
use motor_test.Pid.{PidControl, pid_update}
use motor_test.Pid.Bounds.{run, pid_limit-nan}

add-nan : (f : Format) (a : Float) → add f a nan ≡ nan
unfolding add
add-nan f a = ground arith

nan-add : (f : Format) (a : Float) → add f nan a ≡ nan
unfolding add
nan-add f a = refl

nan-mul : (f : Format) (a : Float) → mul f nan a ≡ nan
unfolding mul
nan-mul f a = refl

nan-sub : (f : Format) (a : Float) → sub f nan a ≡ nan
unfolding sub
nan-sub f a = refl

-- A NaN that the accumulated error holds stays, and is the output, whatever the next values are.
pid_update-nan :
    (pid : PidControl)
    → pid.error_all ≡ nan
    → ((pid_update pid).error_all ≡ nan) × ((pid_update pid).output ≡ nan)
unfolding pid_update
pid_update-nan pid h = (
  rw (h, nan-add, pid_limit-nan),
  rw (h, nan-add, pid_limit-nan, nan-mul, add-nan, nan-add, pid_limit-nan),
)

-- Once the accumulated error is a NaN, it is one after every run of desired and measured values, and
-- so is the output of each round that follows.
pub run-nan :
    (pid : PidControl) (rounds : List (Float × Float)) (des input : Float)
    → pid.error_all ≡ nan
    → ((run pid (rounds ++ (des, input) ∷ [])).error_all ≡ nan)
      × ((run pid (rounds ++ (des, input) ∷ [])).output ≡ nan)
unfolding run
run-nan pid [] des input h = pid_update-nan (record pid { des = des; input = input }) h
run-nan pid ((d, i) ∷ rounds) des input h =
    run-nan (pid_update (record pid { des = d; input = i })) rounds des input
      (pid_update-nan (record pid { des = d; input = i }) h).0

-- A desired value that is a NaN makes the accumulated error a NaN at the next update.
pub pid_update-nan_des : (pid : PidControl) → pid.des ≡ nan → (pid_update pid).error_all ≡ nan
unfolding pid_update
pid_update-nan_des pid h = rw (h, nan-sub, pid_limit-nan, add-nan, pid_limit-nan)
