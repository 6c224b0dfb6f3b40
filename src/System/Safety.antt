-- ===== src/System/Safety.antt =====
-- What holds of the program however its threads interleave.
use mathlib.Core.Path.{subst}
use mathlib.Core.Option.{some-injective}
use motor_test.Base.{ℕ, ◌≡◌, refl, sym, ◌∙◌, List, some, none, ap, All, All-snoc, Option}
use motor_test.Base.{Option-cases, inl, inr}
use motor_test.Base.Int.{pos}
use motor_test.Motor.{CanFrame, MotorMit, Motors, MotorIndex, motor_at}
use motor_test.Motor.Receive.{
  motor_test_can_call, deliver, frame_of_bytes, sender, print_data, reported,
}
use motor_test.Motor.Cycle.{next_frame, kind_of, last_at}
use motor_test.Motor.Init.{Setup, motor_test_init}
use motor_test.Motor.Start.{init-AreSound}
use motor_test.Motor.Sound.{AreSound, AreSound-at, put-AreSound, IsSound-same, IsMotorFrame}
use motor_test.Motor.Rounds.{next_frame-AreSound, sent-IsMotorFrame}
use motor_test.Bench.Laws.{perform-AreSound}
use motor_test.System.{System, Step, shell, receive, skip, pack, send, Reach, here, next, started}

-- Sound motors, and nothing sent but frames for them.
pub record IsSafe (s : System) : Type 0 where
  pub sound : AreSound s.round.motors
  pub frames : All IsMotorFrame s.round.sent

deliver-AreSound :
    (g h : Motors) (frame : CanFrame) (i : Option MotorIndex) (printed : List ℕ)
    → AreSound g
    → deliver g frame i ≡ some (h, printed)
    → AreSound h
unfolding deliver
deliver-AreSound g h frame none printed s e =
    elim (Option-cases (print_data frame.can_dlc frame.payload)) [
      | inl stuck ↦
          let bad : ◌≡◌ {A = Option (Motors × List ℕ)} none (some (h, printed)) =
            rw (stuck, deliver) at e in
          cc
      | inr (cs, read) ↦
          subst AreSound
            (ap (λ (t : Motors × List ℕ). t.0) (some-injective _ _ (rw (read, deliver) at e))) s
    ]
deliver-AreSound g h frame (some i) printed s e =
    let m : MotorMit = record (motor_at g i) { state = reported (motor_at g i) frame.payload } in
    let sound = IsSound-same i (motor_at g i) m refl refl (AreSound-at g i s) in
    subst AreSound (ap (λ (t : Motors × List ℕ). t.0) (some-injective _ _ e))
      (put-AreSound g i m s sound refl)

receive-AreSound :
    (g h : Motors) (buf printed : List ℕ)
    → AreSound g
    → motor_test_can_call g buf ≡ some (h, printed)
    → AreSound h
unfolding motor_test_can_call
receive-AreSound g h buf printed s e =
    let frame = frame_of_bytes buf in deliver-AreSound g h frame (sender frame.can_id) printed s e

Step-IsSafe : {s t : System} → Step s t → IsSafe s → IsSafe t
Step-IsSafe (shell s a g e) h = record {
  sound = perform-AreSound a s.round.motors g h.sound e;
  frames = h.frames;
}
Step-IsSafe (receive s buf g printed e) h = record {
  sound = receive-AreSound s.round.motors g buf printed h.sound e;
  frames = h.frames;
}
Step-IsSafe (skip s i at e) h = record { sound = h.sound; frames = h.frames }
Step-IsSafe (pack s i p g at e run) h =
    let kind = kind_of (last_at s.round.last i) (motor_at s.round.motors i).motor_enable in
    let done = next_frame-AreSound kind p s.round.motors i h.sound in
    record {
      sound = subst AreSound (some-injective _ _ (sym (done.1) ∙ run)) done.2;
      frames = h.frames;
    }
Step-IsSafe (send s i at) h =
    let fits =
      sent-IsMotorFrame i (motor_at s.round.motors i) (AreSound-at s.round.motors i h.sound) in
    record { sound = h.sound; frames = All-snoc IsMotorFrame s.round.sent _ h.frames fits }

Reach-IsSafe : {s t : System} → Reach s t → IsSafe s → IsSafe t
Reach-IsSafe here h = h
Reach-IsSafe (next r step) h = Step-IsSafe step (Reach-IsSafe r h)

-- After a successful initialisation, in every state that any interleaving of shell actions, received
-- frames and the communication thread reaches: the identifiers, frame lengths and ranges of the motors
-- are right; each of the controller's error, accumulated error and output is a NaN or a number within
-- its limit; every frame sent so far is one of
-- eight bytes to a motor; and the next packing, of either motor and of any protocol, meets no undefined
-- conversion.
pub reachable-IsSafe :
    (env : Setup) (s : System) (i : MotorIndex) (p : ℕ)
    → (motor_test_init env).0 ≡ pos 0
    → Reach (started (motor_test_init env).1) s
    → IsSafe s
      × (let kind = kind_of (last_at s.round.last i) (motor_at s.round.motors i).motor_enable in
          (g : Motors) × (next_frame kind p s.round.motors i ≡ some g))
reachable-IsSafe env s i p ok r =
    let safe = Reach-IsSafe r (record { sound = init-AreSound env ok; frames = tt }) in
    let kind = kind_of (last_at s.round.last i) (motor_at s.round.motors i).motor_enable in
    let done = next_frame-AreSound kind p s.round.motors i safe.sound in (safe, (done.0, done.1))
