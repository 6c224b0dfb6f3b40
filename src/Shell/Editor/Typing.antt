-- ===== src/Shell/Editor/Typing.antt =====
-- Typing a text, character by character.
use motor_test.Base.{ℕ, suc, ◌≤◌, ◌<◌, ◌≡◌, refl, ap, List, [], ◌∷◌, map, All, length}
use motor_test.Shell.Editor.{text, Edit, put, IsKey, puts, keys_all, perform, perform_all, rev_onto}

abbrev pub IsPrintable : ℕ → Type 0
IsPrintable c = (32 ≤ c) × (c < 127)

-- The edits that type a text.
abbrev pub typing : List ℕ → List Edit
typing xs = map put xs

pub keys_all-typing : (xs : List ℕ) → keys_all (typing xs) ≡ xs
keys_all-typing [] = refl
keys_all-typing (x ∷ xs) = ap (x ∷◌) (keys_all-typing xs)

pub puts-typing : (xs : List ℕ) → puts (typing xs) ≡ length xs
puts-typing [] = refl
puts-typing (x ∷ xs) = ap suc (puts-typing xs)

pub typing-IsKey : (xs : List ℕ) → All IsPrintable xs → All IsKey (typing xs)
typing-IsKey [] h = tt
typing-IsKey (x ∷ xs) h = (h.0, typing-IsKey xs (h.1))

pub perform_all-typing :
    (xs b a : List ℕ) → perform_all (typing xs) (text b a) ≡ text (rev_onto xs b) a
unfolding perform_all perform
perform_all-typing [] b a = refl
perform_all-typing (x ∷ xs) b a = perform_all-typing xs (x ∷ b) a
