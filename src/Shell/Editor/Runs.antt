-- ===== src/Shell/Editor/Runs.antt =====
-- The loop over the keys of a sequence of edits.
use motor_test.Base.{ℕ, suc, ◌+◌, ◌-◌, ◌≤◌, ◌<◌, ◌≡◌, refl, ap, ◌∙◌, arith, lt→leb}
use motor_test.Base.{ne→==, All}
use motor_test.Base.{List, [], ◌∷◌, ◌++◌, length, Option, some, none}
use mathlib.Core.List.{append_assoc}
use motor_test.Shell.{FinshShell, wait_normal, wait_spec_key, wait_func_key}
use motor_test.Shell.Table.{FinshSyscall}
use motor_test.Shell.History.{up_key, down_key}
use motor_test.Shell.Keys.{quietly, insert_key, backspace_key, left_key, right_key}
use motor_test.Shell.Keys.{plain_key, func_key, by_stat, finsh_key, finsh_loop, followed, Ran}
use motor_test.Shell.Editor.{
  Text, text, Edit, put, erase, left, right, perform, perform_all, keys, keys_all,
}
use motor_test.Shell.Editor.{IsKey, puts, Shows, Keeps, erased, to_left, to_right}
use motor_test.Shell.Editor.Refine.{
  Edited, Keeps-refl, put-Edited, erase-Edited, left-Edited, right-Edited,
}

Keeps-trans : (s t u : FinshShell) → Keeps s t → Keeps t u → Keeps s u
Keeps-trans s t u h g = record {
  entries = g.entries ∙ h.entries;
  count = g.count ∙ h.count;
  current = g.current ∙ h.current;
}

pub followed_nothing : (r : Ran) → followed [] r ≡ r
followed_nothing none = refl
followed_nothing (some (later, s, ended)) = refl

-- A byte that runs no command.
pub finsh_loop_quiet :
    (commands : List FinshSyscall) (s t : FinshShell) (ch : ℕ) (input : List ℕ)
    → finsh_key commands s ch ≡ some (t, [])
    → finsh_loop commands s (ch ∷ input) ≡ finsh_loop commands t input
unfolding finsh_loop
finsh_loop_quiet commands s t ch input e = rw e (followed_nothing (finsh_loop commands t input))

pub printable :
    (commands : List FinshSyscall) (s : FinshShell) (c : ℕ)
    → s.stat ≡ wait_normal
    → 32 ≤ c
    → c < 127
    → finsh_key commands s c ≡ quietly (insert_key s c)
unfolding finsh_key by_stat plain_key
printable commands s c normal low high =
    rw
      (
        lt→leb 128 c (omega arith),
        ne→== c 0x1B (omega arith),
        normal,
        ne→== c 0 (omega arith),
        ne→== c 9 (omega arith),
        ne→== c 0x7F (omega arith),
        ne→== c 8 (omega arith),
        ne→== c 13 (omega arith),
        ne→== c 10 (omega arith),
      )
      refl

-- The keys take the shell to one that shows `t`, whatever comes after them.
pub record Leads (commands : List FinshSyscall) (s : FinshShell) (input : List ℕ) (t : Text)
    : Type 0 where
  pub to : FinshShell
  pub leads : (rest : List ℕ) → finsh_loop commands s (input ++ rest) ≡ finsh_loop commands to rest
  pub shows : Shows t to
  pub keeps : Keeps s to

one_key :
    (commands : List FinshSyscall) (s : FinshShell) (ch : ℕ) (t : Text) (o : Option FinshShell)
    → finsh_key commands s ch ≡ quietly o
    → Edited t s o
    → Leads commands s (ch ∷ []) t
one_key commands s ch t none e h = absurd h
one_key commands s ch t (some s') e h = record {
  to = s';
  leads = λ rest. finsh_loop_quiet commands s s' ch rest e;
  shows = h.0;
  keeps = h.1;
}

pub erase_key :
    (commands : List FinshSyscall) (s : FinshShell)
    → s.stat ≡ wait_normal
    → finsh_key commands s 0x7F ≡ quietly (backspace_key s)
unfolding finsh_key by_stat plain_key
erase_key commands s normal = rw normal refl

-- The three bytes of an arrow key.
module _ (commands : List FinshSyscall) (s : FinshShell) where
  abbrev escaped : FinshShell
  escaped = record s { stat = wait_spec_key }

  abbrev pub bracketed : FinshShell
  bracketed = record s { stat = wait_func_key }

  abbrev pub at_normal : FinshShell
  at_normal = record s { stat = wait_normal }

  pub arrow_loop :
      (ch : ℕ) (s' : FinshShell) (rest : List ℕ)
      → finsh_key commands bracketed ch ≡ some (s', [])
      → finsh_loop commands s (0x1B ∷ 0x5B ∷ ch ∷ rest) ≡ finsh_loop commands s' rest
  unfolding finsh_key by_stat
  arrow_loop ch s' rest e =
      finsh_loop_quiet commands s escaped 0x1B (0x5B ∷ ch ∷ rest) refl
      ∙ finsh_loop_quiet commands escaped bracketed 0x5B (ch ∷ rest) refl
      ∙ finsh_loop_quiet commands bracketed s' ch rest e

  arrow :
      (ch : ℕ) (t : Text) (s' : FinshShell)
      → finsh_key commands bracketed ch ≡ some (s', [])
      → Edited t at_normal (some s')
      → Leads commands s (0x1B ∷ 0x5B ∷ ch ∷ []) t
  arrow ch t s' e h = record {
    to = s';
    leads = λ rest. arrow_loop ch s' rest e;
    shows = h.0;
    keeps = record { entries = h.1.entries; count = h.1.count; current = h.1.current };
  }

  pub up_arrow : finsh_key commands bracketed 0x41 ≡ quietly (up_key at_normal)
  unfolding finsh_key by_stat func_key
  up_arrow = refl

  pub down_arrow : finsh_key commands bracketed 0x42 ≡ quietly (down_key at_normal)
  unfolding finsh_key by_stat func_key
  down_arrow = refl

  left_arrow : finsh_key commands bracketed 0x44 ≡ some (left_key at_normal, [])
  unfolding finsh_key by_stat func_key
  left_arrow = refl

  right_arrow : finsh_key commands bracketed 0x43 ≡ some (right_key at_normal, [])
  unfolding finsh_key by_stat func_key
  right_arrow = refl

pub at_normal-Shows :
    (t : Text) (s : FinshShell) → Shows t s → Shows t (record s { stat = wait_normal })
at_normal-Shows t s h = record {
  spare = h.spare;
  bytes = h.bytes;
  cursor = h.cursor;
  position = h.position;
  room = h.room;
  normal = refl;
}

-- A text with at most `n` characters more would fit.
abbrev pub Fits : Text → ℕ → Type 0
Fits t n = length t.before + length t.after + n ≤ 127

erased-Fits : (b a : List ℕ) (n : ℕ) → Fits (text b a) n → Fits (erased b a) n
erased-Fits [] a n f = f
erased-Fits (c ∷ b) a n f = omega arith

to_left-Fits : (b a : List ℕ) (n : ℕ) → Fits (text b a) n → Fits (to_left b a) n
to_left-Fits [] a n f = f
to_left-Fits (c ∷ b) a n f = omega arith

to_right-Fits : (b a : List ℕ) (n : ℕ) → Fits (text b a) n → Fits (to_right b a) n
to_right-Fits b [] n f = f
to_right-Fits b (c ∷ a) n f = omega arith

perform-Fits :
    (e : Edit) (es : List Edit) (t : Text) → Fits t (puts (e ∷ es)) → Fits (perform e t) (puts es)
unfolding perform
perform-Fits (put c) es t f = omega arith
perform-Fits erase es t f = erased-Fits t.before t.after (puts es) f
perform-Fits left es t f = to_left-Fits t.before t.after (puts es) f
perform-Fits right es t f = to_right-Fits t.before t.after (puts es) f

now-Fits : (e : Edit) (es : List Edit) (t : Text) → Fits t (puts (e ∷ es)) → Fits t (puts (e ∷ []))
now-Fits (put c) es t f = omega arith
now-Fits erase es t f = omega arith
now-Fits left es t f = omega arith
now-Fits right es t f = omega arith

pub perform-Leads :
    (commands : List FinshSyscall) (s : FinshShell) (t : Text) (e : Edit)
    → IsKey e
    → Shows t s
    → Fits t (puts (e ∷ []))
    → Leads commands s (keys e) (perform e t)
unfolding perform
perform-Leads commands s t (put c) k h f =
    let r = h.room in
    let spare : h.spare ≡ suc (h.spare - 1) = omega arith in
    one_key commands s c _ (insert_key s c) (printable commands s c h.normal (k.0) (k.1))
      (put-Edited s t.before t.after c (h.spare - 1) h spare)
perform-Leads commands s t erase k h f =
    one_key commands s 0x7F _ (backspace_key s) (erase_key commands s h.normal)
      (erase-Edited s t.before t.after h)
perform-Leads commands s t left k h f =
    arrow commands s 0x44 _ _ (left_arrow commands s)
      (left-Edited _ t.before t.after (at_normal-Shows t s h))
perform-Leads commands s t right k h f =
    arrow commands s 0x43 _ _ (right_arrow commands s)
      (right-Edited _ t.before t.after (at_normal-Shows t s h))

-- The keys of any sequence of edits (printable characters put in, the character before the cursor
-- erased, the cursor moved) take a shell that shows a text to one that shows the text after the same
-- edits, where at most 127 characters can be in it. No command is run, and the history is left alone.
pub perform_all-Leads :
    (commands : List FinshSyscall) (s : FinshShell) (t : Text) (es : List Edit)
    → All IsKey es
    → Shows t s
    → Fits t (puts es)
    → Leads commands s (keys_all es) (perform_all es t)
unfolding perform_all
perform_all-Leads commands s t [] k h f = record {
  to = s;
  leads = λ rest. refl;
  shows = h;
  keeps = Keeps-refl s;
}
perform_all-Leads commands s t (e ∷ es) k h f =
    let now = perform-Leads commands s t e (k.0) h (now-Fits e es t f) in
    let later =
      perform_all-Leads commands now.to (perform e t) es (k.1) now.shows (perform-Fits e es t f) in
    record {
      to = later.to;
      leads = λ rest.
          ap (finsh_loop commands s) (append_assoc (keys e) (keys_all es) rest)
          ∙ now.leads (keys_all es ++ rest)
          ∙ later.leads rest;
      shows = later.shows;
      keeps = Keeps-trans _ _ _ now.keeps later.keeps;
    }
