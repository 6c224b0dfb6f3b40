-- ===== src/Shell/Desk.antt =====
-- What the shell is for a person at its keyboard, apart from any buffer: a text with a cursor, and the
-- texts that were entered before.
pub mod Past
pub mod Push
pub mod Strings
pub mod Edits
pub mod Arrows
pub mod Press
use motor_test.Base.{
  ℕ, zero, suc, ◌+◌, ◌-◌, ◌≤◌, ◌<◌, ◌≡◌, Bool, false, if◌then◌else◌, leb, ltb, ◌==◌,
}
use motor_test.Base.{List, [], ◌∷◌, ◌++◌, All, map, length, get_or}
use motor_test.Base.Memory.{drop, replicate}
use motor_test.Shell.{FinshShell}
use motor_test.Shell.Names.{memcmp_equal}
use motor_test.Shell.Editor.{
  Text, text, Edit, put, IsKey, keys, puts, perform, rev_onto, in_order, Shows,
}
use motor_test.Shell.Editor.Runs.{Fits}
use motor_test.Shell.Completion.{completion}
use motor_test.Shell.Dispatch.{IsString}

-- The texts of the history, the oldest first, and the one that the arrow keys stand at.
pub record Desk : Type 0 where
  pub line : Text
  pub past : List (List ℕ)
  pub current : ℕ

pub data Key : Type 0 where
  edit : Edit → Key
  tab up down : Key

-- A text with the cursor behind it.
abbrev pub at_its_end : List ℕ → Text
at_its_end xs = text (rev_onto xs []) []

abbrev pub recalled : Desk → ℕ → Desk
recalled d i = record d { line = at_its_end (get_or d.past i []); current = i }

abbrev pub completed : List (List ℕ) → List ℕ → Text
completed names [] = text [] []
completed names (c ∷ cs) = at_its_end (completion (c ∷ cs) names)

-- What a key does, with these names of commands.
unfoldable pub press : List (List ℕ) → Key → Desk → Desk
press names (edit e) d = record d { line = perform e d.line }
press names tab d = record d { line = completed names (in_order d.line) }
press names up d = if d.current == 0 then d else recalled d (d.current - 1)
press names down d =
    if ltb (d.current + 1) (length d.past)
    then recalled d (d.current + 1)
    else if length d.past == 0
    then d
    else recalled d (length d.past - 1)

unfoldable pub press_all : List (List ℕ) → List Key → Desk → Desk
press_all names [] d = d
press_all names (k ∷ ks) d = press_all names ks (press names k d)

-- At most 100 texts are kept; a text like the last one is not kept again, nor is an empty one.
abbrev pub kept : List (List ℕ) → List (List ℕ)
kept past = if leb 100 (length past) then drop 1 past else past

abbrev pub is_last : List ℕ → List (List ℕ) → Bool
is_last xs past =
    if length past == 0 then false else memcmp_equal (get_or past (length past - 1) []) xs

unfoldable pub remember : List ℕ → List (List ℕ) → List (List ℕ)
remember [] past = past
remember (c ∷ cs) past = if is_last (c ∷ cs) past then past else kept past ++ (c ∷ cs) ∷ []

unfoldable pub enter : Desk → Desk
enter d =
    let past = remember (in_order d.line) d.past in
    record { line = text [] []; past = past; current = length past }

-- The bytes of a key.
abbrev pub key_bytes : Key → List ℕ
key_bytes (edit e) = keys e
key_bytes tab = b'\t' ∷ []
key_bytes up = 0x1B ∷ 0x5B ∷ 0x41 ∷ []
key_bytes down = 0x1B ∷ 0x5B ∷ 0x42 ∷ []

abbrev pub key_bytes_all : List Key → List ℕ
key_bytes_all [] = []
key_bytes_all (k ∷ ks) = key_bytes k ++ key_bytes_all ks

-- A character that is put in is printable, and finds at most 126 in the line.
abbrev pub CanPress : Key → Desk → Type 0
CanPress (edit e) d = IsKey e × Fits d.line (puts (e ∷ []))
CanPress tab d = Unit
CanPress up d = Unit
CanPress down d = Unit

abbrev pub CanPressAll : List (List ℕ) → List Key → Desk → Type 0
CanPressAll names [] d = Unit
CanPressAll names (k ∷ ks) d = CanPress k d × CanPressAll names ks (press names k d)

-- A text as an entry of the history: zeros behind it.
abbrev pub padded : List ℕ → List ℕ
padded xs = xs ++ replicate (128 - length xs) 0

abbrev pub IsLineText : List ℕ → Type 0
IsLineText xs = IsString xs × (length xs ≤ 127)

-- The history of the shell holds the texts, and zeros behind them.
pub record Recalls (past : List (List ℕ)) (current : ℕ) (s : FinshShell) : Type 0 where
  pub entries : s.cmd_history ≡ map padded past ++ replicate (100 - length past) (replicate 128 0)
  pub count : s.history_count ≡ length past
  pub at : s.current_history ≡ current
  pub hundred : length past ≤ 100
  pub inside : current ≤ length past
  pub texts : All IsLineText past

-- The shell is in the state of the desk.
pub record Mirrors (d : Desk) (s : FinshShell) : Type 0 where
  pub shows : Shows d.line s
  pub string : IsString (in_order d.line)
  pub recalls : Recalls d.past d.current s
