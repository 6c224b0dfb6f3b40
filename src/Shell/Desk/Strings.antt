-- ===== src/Shell/Desk/Strings.antt =====
-- The texts that the keys leave are strings.
use motor_test.Base.{ℕ, ◌≡◌, ◌∙◌, arith}
use motor_test.Base.{List, [], ◌∷◌, All}
use mathlib.Core.List.{append-nil}
use motor_test.Shell.Dispatch.{NonZero, IsString}
use motor_test.Shell.Editor.{
  Text, text, Edit, put, erase, left, right, IsKey, perform, rev_onto, in_order,
}
use motor_test.Shell.Editor.Moves.{rev_onto_twice}
use motor_test.Shell.Editor.Runs.{}
use motor_test.Shell.Desk.{at_its_end}

All-parts : (P : ℕ → Type 0) (b a : List ℕ) → All P (rev_onto b a) → All P b × All P a
All-parts P [] a h = (tt, h)
All-parts P (x ∷ b) a h = let parts = All-parts P b (x ∷ a) h in ((parts.1.0, parts.0), parts.1.1)

All-rev_onto : (P : ℕ → Type 0) (b a : List ℕ) → All P b → All P a → All P (rev_onto b a)
All-rev_onto P [] a h g = g
All-rev_onto P (x ∷ b) a h g = All-rev_onto P b (x ∷ a) (h.1) (h.0, g)

erased-IsString :
    (b a : List ℕ) → IsString (rev_onto b a) → IsString (in_order (perform erase (text b a)))
unfolding perform
erased-IsString [] a h = h
erased-IsString (c ∷ b) a h =
    let parts = All-parts NonZero (c ∷ b) a h in All-rev_onto NonZero b a (parts.0.1) (parts.1)

left-IsString :
    (b a : List ℕ) → IsString (rev_onto b a) → IsString (in_order (perform left (text b a)))
unfolding perform
left-IsString [] a h = h
left-IsString (c ∷ b) a h = h

right-IsString :
    (b a : List ℕ) → IsString (rev_onto b a) → IsString (in_order (perform right (text b a)))
unfolding perform
right-IsString b [] h = h
right-IsString b (c ∷ a) h = h

-- An edit leaves no 0 in the text.
pub perform-IsString :
    (e : Edit) (t : Text) → IsKey e → IsString (in_order t) → IsString (in_order (perform e t))
unfolding perform
perform-IsString (put c) t k h =
    let parts = All-parts NonZero t.before t.after h in
    let low = k.0 in
    All-rev_onto NonZero t.before (c ∷ t.after) (parts.0) (λ e. omega arith, parts.1)
perform-IsString erase t k h = erased-IsString t.before t.after h
perform-IsString left t k h = left-IsString t.before t.after h
perform-IsString right t k h = right-IsString t.before t.after h

pub in_order-end : (w : List ℕ) → in_order (at_its_end w) ≡ w
in_order-end w = rev_onto_twice w [] [] ∙ append-nil w
