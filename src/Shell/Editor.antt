-- ===== src/Shell/Editor.antt =====
-- What the keys of the shell promise: a text with a cursor, and its edits, apart from any buffer.
pub mod Moves
pub mod Refine
pub mod Runs
pub mod Behind
pub mod Typing
use motor_test.Base.{ℕ, zero, suc, ◌+◌, ◌≤◌, ◌<◌, ◌≡◌, List, [], ◌∷◌, ◌++◌, length}
use motor_test.Base.Memory.{replicate}
use motor_test.Shell.{FinshShell, InputStat, wait_normal}

-- The characters before the cursor, the nearest first, and those from it on.
pub record Text : Type 0 where
  pub before : List ℕ
  pub after : List ℕ

pub data Edit : Type 0 where
  put : ℕ → Edit
  erase left right : Edit

abbrev pub text : List ℕ → List ℕ → Text
text before after = record { before = before; after = after }

abbrev pub erased : List ℕ → List ℕ → Text
erased [] a = text [] a
erased (c ∷ b) a = text b a

abbrev pub to_left : List ℕ → List ℕ → Text
to_left [] a = text [] a
to_left (c ∷ b) a = text b (c ∷ a)

abbrev pub to_right : List ℕ → List ℕ → Text
to_right b [] = text b []
to_right b (c ∷ a) = text (c ∷ b) a

unfoldable pub perform : Edit → Text → Text
perform (put c) t = text (c ∷ t.before) t.after
perform erase t = erased t.before t.after
perform left t = to_left t.before t.after
perform right t = to_right t.before t.after

unfoldable pub perform_all : List Edit → Text → Text
perform_all [] t = t
perform_all (e ∷ es) t = perform_all es (perform e t)

-- The bytes of the keys.
abbrev pub keys : Edit → List ℕ
keys (put c) = c ∷ []
keys erase = 0x7F ∷ []
keys left = 0x1B ∷ 0x5B ∷ 0x44 ∷ []
keys right = 0x1B ∷ 0x5B ∷ 0x43 ∷ []

abbrev pub keys_all : List Edit → List ℕ
keys_all [] = []
keys_all (e ∷ es) = keys e ++ keys_all es

-- Characters to be put in are printable.
abbrev pub IsKey : Edit → Type 0
IsKey (put c) = (32 ≤ c) × (c < 127)
IsKey erase = Unit
IsKey left = Unit
IsKey right = Unit

-- The characters that the edits put in.
abbrev pub puts : List Edit → ℕ
puts [] = 0
puts (put c ∷ es) = suc (puts es)
puts (erase ∷ es) = puts es
puts (left ∷ es) = puts es
puts (right ∷ es) = puts es

abbrev pub rev_onto : List ℕ → List ℕ → List ℕ
rev_onto [] ys = ys
rev_onto (x ∷ xs) ys = rev_onto xs (x ∷ ys)

abbrev pub in_order : Text → List ℕ
in_order t = rev_onto t.before t.after

-- The line holds the text, and zeros behind it; `spare` characters more would fit.
pub record Shows (t : Text) (s : FinshShell) : Type 0 where
  pub spare : ℕ
  pub bytes : s.line ≡ rev_onto t.before (t.after ++ replicate (suc (suc spare)) 0)
  pub cursor : s.line_curpos ≡ length t.before
  pub position : s.line_position ≡ length t.before + length t.after
  pub room : length t.before + length t.after + spare ≡ 127
  pub normal : s.stat ≡ wait_normal

-- The history is left alone.
pub record Keeps (s t : FinshShell) : Type 0 where
  pub entries : t.cmd_history ≡ s.cmd_history
  pub count : t.history_count ≡ s.history_count
  pub current : t.current_history ≡ s.current_history
