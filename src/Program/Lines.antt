-- ===== src/Program/Lines.antt =====
-- Lines of a command's name and its arguments, with a blank before each argument.
use mathlib.Core.List.{append-nil}
use motor_test.Base.{ℕ, ◌+◌, ◌≤◌, ◌≡◌, refl, ap, ap₂, ◌∙◌, ne→==, arith, true, false}
use motor_test.Shell.Table.{FinshSyscall}
use motor_test.Base.{List, [], ◌∷◌, ◌++◌, All, All-append, map, length, some, if◌then◌else◌, Bool}
use motor_test.Shell.{FinshShell, Done}
use motor_test.Shell.Keys.{Ran, followed}
use motor_test.Shell.Words.{fields, in_word, words, word}
use motor_test.Shell.Editor.{text, put, rev_onto, perform}
use motor_test.Shell.Editor.Typing.{IsPrintable}
use motor_test.Shell.Desk.{Desk, Key, edit, press, press_all, key_bytes_all, CanPressAll}
use motor_test.Shell.Session.{LinesRan, with_others, after_lines}
use motor_test.Shell.Dispatch.{run_text, done_by, lookup}
use motor_test.Base.Memory.{take}
use motor_test.Program.Names.{IsLetter, IsWord, IsWord-letters, not_blank, letters-IsPrintable}

abbrev pub spaced : List (List ℕ) → List ℕ
spaced [] = []
spaced (w ∷ ws) = b' ' ∷ (w ++ spaced ws)

abbrev pub command_line : List ℕ → List (List ℕ) → List ℕ
command_line name args = name ++ spaced args

fields-append :
    (w t : List ℕ)
    → All IsLetter w
    → fields in_word (w ++ t) ≡ (w ++ (fields in_word t).0, (fields in_word t).1)
unfolding fields
fields-append [] t h = refl
fields-append (c ∷ w) t h =
    rw (not_blank c (h.0))
      (ap (λ (f : List ℕ × List (List ℕ)). (c ∷ f.0, f.1)) (fields-append w t (h.1)))

-- Behind a word and before one with a blank before it, the words are the same.
words-word :
    (w : List ℕ) (ws : List (List ℕ))
    → IsWord w
    → fields in_word (spaced ws) ≡ ([], ws)
    → words (w ++ spaced ws) ≡ w ∷ ws
words-word [] ws h e = absurd h
words-word (c ∷ w) ws h e =
    unfold words fields in
    rw (words, not_blank c (h.0), ne→== c b'"' (h.0.2), fields-append w (spaced ws) (h.1), e)
      (ap (λ v. (c ∷ v) ∷ ws) (append-nil w))

fields-spaced : (ws : List (List ℕ)) → All IsWord ws → fields in_word (spaced ws) ≡ ([], ws)
fields-spaced [] h = unfold fields in refl
fields-spaced (w ∷ ws) h =
    words_behind ∙ ap (λ vs. ([], vs)) (words-word w ws (h.0) (fields-spaced ws (h.1)))
  where
    words_behind : fields in_word (spaced (w ∷ ws)) ≡ ([], words (w ++ spaced ws))
    words_behind = unfold fields words in refl

-- The words of a line are the name and the arguments, and it begins with its name.
pub words-command_line :
    (name : List ℕ) (args : List (List ℕ))
    → IsWord name
    → All IsWord args
    → words (command_line name args) ≡ name ∷ args
words-command_line name args n h = words-word name args n (fields-spaced args h)

word-append_spaced : (w : List ℕ) (ws : List (List ℕ)) → All IsLetter w → word (w ++ spaced ws) ≡ w
word-append_spaced [] [] h = refl
word-append_spaced [] (v ∷ ws) h = refl
word-append_spaced (c ∷ w) ws h = rw (not_blank c (h.0)) (ap (c ∷◌) (word-append_spaced w ws (h.1)))

-- What a line with a name does.
pub run_text-command_line :
    (table : List FinshSyscall) (name : List ℕ) (args : List (List ℕ))
    → IsWord name
    → All IsWord args
    → run_text table (command_line name args) ≡ done_by (lookup table name) (take 8 (name ∷ args))
unfolding run_text
run_text-command_line table [] args n h = absurd n
run_text-command_line table (c ∷ w) args n h = rw (not_blank c (n.0)) (
    ap₂ (λ v vs. done_by (lookup table v) (take 8 vs)) (word-append_spaced (c ∷ w) args n)
      (words-command_line (c ∷ w) args n h))

-- The keys that type a text.
abbrev pub strokes : List ℕ → List Key
strokes xs = map (λ c. edit (put c)) xs

-- A shell that waits for a line, with nothing typed yet.
abbrev pub prompt : List (List ℕ) → Desk
prompt past = record { line = text [] []; past = past; current = length past }

pub key_bytes_all-strokes : (xs : List ℕ) → key_bytes_all (strokes xs) ≡ xs
key_bytes_all-strokes [] = refl
key_bytes_all-strokes (c ∷ xs) = ap (c ∷◌) (key_bytes_all-strokes xs)

module _ (names past : List (List ℕ)) (current : ℕ) where
  pub press_all-strokes :
      (xs b : List ℕ)
      → press_all names (strokes xs) (record { line = text b []; past = past; current = current })
        ≡ record { line = text (rev_onto xs b) []; past = past; current = current }
  unfolding press_all press perform
  press_all-strokes [] b = refl
  press_all-strokes (c ∷ xs) b = press_all-strokes xs (c ∷ b)

  pub strokes-CanPressAll :
      (xs b : List ℕ)
      → All IsPrintable xs
      → length b + length xs ≤ 127
      → CanPressAll names (strokes xs) (record { line = text b []; past = past; current = current })
  unfolding press perform
  strokes-CanPressAll [] b h l = tt
  strokes-CanPressAll (c ∷ xs) b h l =
      ((h.0, omega arith), strokes-CanPressAll xs (c ∷ b) (h.1) (omega arith))

-- A line of words can be typed.
pub spaced-IsPrintable : (args : List (List ℕ)) → All IsWord args → All IsPrintable (spaced args)
spaced-IsPrintable [] h = tt
spaced-IsPrintable (w ∷ ws) h =
    let word = letters-IsPrintable w (IsWord-letters w (h.0)) in
    (
      (omega arith, omega arith),
      All-append IsPrintable w (spaced ws) word (spaced-IsPrintable ws (h.1)),
    )

-- What becomes of the loop after one line.
abbrev pub after_command : Done → FinshShell → Ran → Ran
after_command done u later =
    if done.quits then some (done ∷ [], u, true) else followed (done ∷ []) later

pub after_lines-one :
    (quits : Bool) (done : Done) (d : Desk) (u : FinshShell) (later : Ran)
    → let ran : LinesRan =
        with_others quits done d (record { dones = []; ended = false; desk = d }) in
      (after_lines ran.dones ran.ended u later
        ≡ (if quits then some (done ∷ [], u, true) else followed (done ∷ []) later))
      × (ran.desk ≡ d)
after_lines-one true done d u later = (refl, refl)
after_lines-one false done d u later = (refl, refl)
