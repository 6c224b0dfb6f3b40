-- ===== src/Program/Frames.antt =====
-- From a line at the keyboard to the frame on the bus: the shell, the command, the motors and a turn of
-- the communication thread.
use mathlib.Core.List.{Permᴰ, append-nil}
use mathlib.Core.List.Memᴰ.{head, tail}
use mathlib.Core.Path.{subst, transport}
use motor_test.Base.{
  ℕ, ◌+◌, ◌≤◌, ◌≡◌, ◌≢◌, refl, sym, if◌then◌else◌, Bool, Bool-cases, inl, inr, true, ap, ◌∙◌, arith,
  false, List, [], ◌∷◌, ◌++◌, length, some, length-append,
}
use motor_test.Base.Int.{ℤ, pos}
use motor_test.Float.Convert.{narrow}
use motor_test.Motor.{Motors, MotorIndex, first, motor_at, put_motor, set_motor_tor, motor_enable}
use motor_test.Motor.Cycle.{
  Round, Sent, Kind, enter, exit, command, kind_of, motor_cycle, last_at, protocol_of, is_set,
}
use motor_test.Motor.Sound.{AreSound}
use motor_test.Motor.Rounds.{own_codes}
use motor_test.Motor.Modes.{Holds, mode_bytes, motor_cycle-Holds}
use motor_test.Protocol.Layout.{read_fields}
use motor_test.Bench.{Action, set_tor, set_enable, perform, perform_all}
use motor_test.Bench.Laws.{perform-AreSound}
use motor_test.Bench.Commands.{s_torq, m_enable, float_arg}
use motor_test.Shell.{FinshShell}
use motor_test.Shell.Table.{FinshSyscall}
use motor_test.Shell.Keys.{followed, finsh_loop}
use motor_test.Shell.Desk.{remember, Mirrors}
use motor_test.Program.Table.{Answers, bench_table, entry, sets}
use motor_test.Program.Names.{IsWord}
use motor_test.Program.Lines.{command_line, prompt}
use motor_test.Program.Typed.{finsh_loop-command}

-- `s_torq` and `m_enable`.
abbrev pub torque_name : List ℕ
torque_name = b's' ∷ b'_' ∷ b't' ∷ b'o' ∷ b'r' ∷ b'q' ∷ []

abbrev pub enable_name : List ℕ
enable_name = b'm' ∷ b'_' ∷ b'e' ∷ b'n' ∷ b'a' ∷ b'b' ∷ b'l' ∷ b'e' ∷ []

-- A line at the prompt has the shell perform these actions and go on.
abbrev pub Performs : List FinshSyscall → FinshShell → List (List ℕ) → List ℕ → List Action → Type 0
Performs table s past line actions =
    (u : FinshShell) × ((rest : List ℕ)
      → finsh_loop table s (line ++ b'\n' ∷ rest)
        ≡ followed (record { code = pos 0; quits = false; actions = actions } ∷ [])
            (finsh_loop table u rest))
    × Mirrors (prompt (remember line past)) u

-- The next turn for the motor sends one frame, of which `P` holds.
abbrev pub Sends : Round → MotorIndex → (List ℕ → Type 0) → Type 0
Sends r i P =
    (t : Round) × (x : Sent) × (motor_cycle r i ≡ some t)
    × (t.sent ≡ r.sent ++ x ∷ [])
    × P x.frame.payload

line_length : (name w : List ℕ) → length (command_line name (w ∷ [])) ≡ length name + 1 + length w
line_length name w = omega (arith, length-append name (b' ' ∷ (w ++ [])), ap length (append-nil w))

turn :
    (r : Round) (g : Motors) (a : Action) (i : MotorIndex) (p : ℕ)
    → AreSound r.motors
    → perform a r.motors ≡ some g
    → protocol_of (motor_at g i).protocol ≡ some p
    → Sends
        (record r { motors = g })
        i
        (Holds (kind_of (last_at r.last i) (motor_at g i).motor_enable) p g i)
turn r g a i p s e known =
    let cycle =
      motor_cycle-Holds (record r { motors = g }) i p (perform-AreSound a r.motors g s e) known in
    (cycle.0, cycle.1, cycle.2, cycle.3, cycle.4)

-- The frame at a change of the flag.
abbrev mode_kind : Bool → Kind
mode_kind on = if on then enter else exit

kind_of-changed :
    (last now : ℤ) → is_set last ≢ is_set now → kind_of last now ≡ mode_kind (is_set now)
unfolding kind_of
kind_of-changed last now changed = elim (Bool-cases (is_set last)) [
  | inl p ↦ elim (Bool-cases (is_set now)) [
    | inl q ↦ absurd (changed (p ∙ sym q))
    | inr q ↦ rw (p, q) refl
  ]
  | inr p ↦ elim (Bool-cases (is_set now)) [
    | inl q ↦ rw (p, q) refl
    | inr q ↦ absurd (changed (p ∙ sym q))
  ]
]

Holds-mode :
    (on : Bool) (p : ℕ) (g : Motors) (i : MotorIndex) (bytes : List ℕ)
    → Holds (mode_kind on) p g i bytes ≡ (bytes ≡ mode_bytes (if on then 0xFC else 0xFD))
Holds-mode true p g i bytes = refl
Holds-mode false p g i bytes = refl

mode_sent :
    (r : Round) (g : Motors) (i : MotorIndex) (p : ℕ) (last now : ℤ)
    → is_set last ≢ is_set now
    → Sends r i (Holds (kind_of last now) p g i)
    → Sends r i (λ bytes. bytes ≡ mode_bytes (if is_set now then 0xFC else 0xFD))
mode_sent r g i p last now changed sends =
    let kind = kind_of-changed last now changed in
    let held = subst (λ k. Holds k p g i sends.1.frame.payload) kind (sends.4) in
    (
      sends.0,
      sends.1,
      sends.2,
      sends.3,
      transport (Holds-mode (is_set now) p g i sends.1.frame.payload) held,
    )

module _ (a : Answers) (table : List FinshSyscall) (p : Permᴰ (bench_table a) table)
    (s : FinshShell) (past : List (List ℕ)) (mirrors : Mirrors (prompt past) s) (w : List ℕ)
    (word : IsWord w) (r : Round) (sound : AreSound r.motors) where
  -- A line with a torque, typed at the prompt: `s_torq` and a word of at most 120 printable characters
  -- without blanks and quotes. The shell
  -- sets the first motor's torque to the number that the word stands for and nothing else; and where
  -- that motor is in protocol 0 and its enable flag has not changed, the next turn for it sends one frame,
  -- which the receiver reads as the motor's command with that torque. The motors are sound, and the
  -- commands of the program are registered in any order.
  pub s_torq-sent :
      length w ≤ 120
      → protocol_of r.motors.motor0.protocol ≡ some 0
      → kind_of (last_at r.last first) r.motors.motor0.motor_enable ≡ command
      → let tor = narrow (a.atof w) in
        let actions = set_tor first tor ∷ [] in
        Performs table s past (command_line torque_name (w ∷ [])) actions
        × (g : Motors) × (perform_all actions r.motors ≡ some g)
        × Sends
            (record r { motors = g })
            first
            (λ bytes. read_fields bytes ≡ own_codes (set_motor_tor r.motors.motor0 tor))
  unfolding bench_table perform perform_all s_torq float_arg
  s_torq-sent l known same =
      let cmd = entry torque_name (sets (s_torq a.atof a.atoi)) in
      let fits : length (command_line torque_name (w ∷ [])) ≤ 127 =
        omega (arith, line_length torque_name w) in
      let tor = narrow (a.atof w) in
      let g = put_motor r.motors first (set_motor_tor r.motors.motor0 tor) in
      let run =
        finsh_loop-command a table p cmd (w ∷ []) s past (tail (head refl)) (word, tt) fits
          mirrors in
      (
        run,
        g,
        refl,
        subst (λ k. Sends (record r { motors = g }) first (Holds k 0 g first)) same
            (turn r g (set_tor first tor) first 0 sound refl known),
      )

  -- A line with an enable flag, typed at the prompt: `m_enable` and a word of at most 118 printable
  -- characters without blanks and quotes. The
  -- shell sets the first motor's flag to the number that the word stands for and nothing else; and where
  -- the communication thread has noted the flag 0 and the number is another, the next turn for the
  -- motor sends the frame that enters the motor's mode, and where it has noted another and the number
  -- is 0, the frame that leaves it. The motor is in one of the three protocols, the motors are sound, and
  -- the commands of the program are registered in any order.
  pub m_enable-sent :
      (protocol : ℕ)
      → length w ≤ 118
      → protocol_of r.motors.motor0.protocol ≡ some protocol
      → is_set (last_at r.last first) ≢ is_set (a.atoi w)
      → let actions = set_enable first (a.atoi w) ∷ [] in
        Performs table s past (command_line enable_name (w ∷ [])) actions
        × (g : Motors) × (perform_all actions r.motors ≡ some g)
        × Sends
            (record r { motors = g })
            first
            (λ bytes. bytes ≡ mode_bytes (if is_set (a.atoi w) then 0xFC else 0xFD))
  unfolding bench_table perform perform_all m_enable
  m_enable-sent protocol l known changed =
      let cmd = entry enable_name (sets (m_enable a.atof a.atoi)) in
      let fits : length (command_line enable_name (w ∷ [])) ≤ 127 =
        omega (arith, line_length enable_name w) in
      let g = put_motor r.motors first (motor_enable r.motors.motor0 (a.atoi w)) in
      let run =
        finsh_loop-command a table p cmd (w ∷ []) s past
          (tail (tail (tail (tail (tail (head refl)))))) (word, tt) fits mirrors in
      (
        run,
        g,
        refl,
        mode_sent (record r { motors = g }) g first protocol (last_at r.last first) (a.atoi w)
            changed (turn r g (set_enable first (a.atoi w)) first protocol sound refl known),
      )
