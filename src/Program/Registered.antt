-- ===== src/Program/Registered.antt =====
-- Finding a registered command. The order in which the files register theirs is the linker's.
use mathlib.Core.List.{Memᴰ, Permᴰ}
use mathlib.Core.List.Memᴰ.{head, tail}
use mathlib.Core.List.Permᴰ.{nil, cons, swap, trans}
use mathlib.Core.Path.{subst}
use motor_test.Base.{
  ℕ, ◌≡◌, ◌≢◌, refl, sym, ap₂, ◌∙◌, arith, ◌==◌, true, false, Bool-cases, inl, inr,
}
use motor_test.Base.{List, [], ◌∷◌, All, some, ==_true, both}
use motor_test.Shell.Names.{memcmp_equal}
use motor_test.Shell.Table.{FinshSyscall, names_of}
use motor_test.Shell.Dispatch.{lookup}

-- No two commands have one name.
abbrev pub AreApart : List FinshSyscall → Type 0
AreApart [] = Unit
AreApart (cmd ∷ rest) = All (λ name. cmd.name ≢ name) (names_of rest) × AreApart rest

pub memcmp_equal_self : (xs : List ℕ) → memcmp_equal xs xs ≡ true
unfolding memcmp_equal
memcmp_equal_self [] = refl
memcmp_equal_self (x ∷ xs) = ground (arith, memcmp_equal_self xs)

memcmp_equal-eq : (xs ys : List ℕ) → memcmp_equal xs ys ≡ true → xs ≡ ys
unfolding memcmp_equal
memcmp_equal-eq [] [] e = refl
memcmp_equal-eq [] (y ∷ ys) e = cc
memcmp_equal-eq (x ∷ xs) [] e = cc
memcmp_equal-eq (x ∷ xs) (y ∷ ys) e =
    let parts = both (x == y) (memcmp_equal xs ys) e in
    ap₂ (λ z zs. z ∷ zs) (==_true x y (parts.0)) (memcmp_equal-eq xs ys (parts.1))

memcmp_equal-ne : (xs ys : List ℕ) → xs ≢ ys → memcmp_equal xs ys ≡ false
memcmp_equal-ne xs ys n = elim (Bool-cases (memcmp_equal xs ys)) [
  | inl p ↦ absurd (n (memcmp_equal-eq xs ys p))
  | inr p ↦ p
]

-- What holds of all names holds of the name of a command.
pub All-Memᴰ :
    (P : List ℕ → Type 0) (cmd : FinshSyscall) (xs : List FinshSyscall)
    → All P (names_of xs)
    → Memᴰ cmd xs
    → P cmd.name
All-Memᴰ P cmd [] h m = elim m [ ]
All-Memᴰ P cmd (x ∷ xs) h (head e) = subst (λ (c : FinshSyscall). P c.name) (sym e) (h.0)
All-Memᴰ P cmd (x ∷ xs) h (tail m) = All-Memᴰ P cmd xs (h.1) m

-- A property of all names does not depend on the order of the table.
pub All-Permᴰ :
    {xs ys : List FinshSyscall} (P : List ℕ → Type 0)
    → Permᴰ xs ys
    → All P (names_of xs)
    → All P (names_of ys)
All-Permᴰ P nil h = h
All-Permᴰ P (cons e p) h = (subst (λ (cmd : FinshSyscall). P cmd.name) e (h.0), All-Permᴰ P p (h.1))
All-Permᴰ P (swap e f) h = (
  subst (λ (cmd : FinshSyscall). P cmd.name) f (h.1.0),
  (subst (λ (cmd : FinshSyscall). P cmd.name) e (h.0), h.1.1),
)
All-Permᴰ P (trans p q) h = All-Permᴰ P q (All-Permᴰ P p h)

AreApart-swap :
    (a b : FinshSyscall) (l : List FinshSyscall) → AreApart (a ∷ b ∷ l) → AreApart (b ∷ a ∷ l)
AreApart-swap a b l h = ((λ e. h.0.0 (sym e), h.1.0), (h.0.1, h.1.1))

-- Neither does it that the names differ.
pub AreApart-Permᴰ : {xs ys : List FinshSyscall} → Permᴰ xs ys → AreApart xs → AreApart ys
AreApart-Permᴰ nil h = h
AreApart-Permᴰ (cons {b = b} {l₂ = ys} e p) h = (
  subst (λ (cmd : FinshSyscall). All (λ name. cmd.name ≢ name) (names_of ys)) e
      (All-Permᴰ (λ name. _ ≢ name) p (h.0)),
  AreApart-Permᴰ p (h.1),
)
AreApart-Permᴰ (swap {a = a} {b = b} {a' = a'} {b' = b'} {l = l} e f) h =
    subst (λ (cmd : FinshSyscall). AreApart (a' ∷ cmd ∷ l)) e
      (subst (λ (cmd : FinshSyscall). AreApart (cmd ∷ a ∷ l)) f (AreApart-swap a b l h))
AreApart-Permᴰ (trans p q) h = AreApart-Permᴰ q (AreApart-Permᴰ p h)

lookup-Memᴰ :
    (cmd : FinshSyscall) (xs : List FinshSyscall)
    → AreApart xs
    → Memᴰ cmd xs
    → lookup xs cmd.name ≡ some cmd.func
unfolding lookup
lookup-Memᴰ cmd [] apart m = elim m [ ]
lookup-Memᴰ cmd (x ∷ xs) apart (head e) =
    subst (λ (c : FinshSyscall). lookup (c ∷ xs) cmd.name ≡ some cmd.func) e
      (rw (memcmp_equal_self cmd.name) refl)
lookup-Memᴰ cmd (x ∷ xs) apart (tail m) =
    let other : x.name ≢ cmd.name = All-Memᴰ (λ name. x.name ≢ name) cmd xs (apart.0) m in
    rw (memcmp_equal-ne x.name cmd.name other) (lookup-Memᴰ cmd xs (apart.1) m)

Memᴰ-Permᴰ :
    {xs ys : List FinshSyscall} (cmd : FinshSyscall) → Permᴰ xs ys → Memᴰ cmd xs → Memᴰ cmd ys
Memᴰ-Permᴰ cmd nil m = elim m [ ]
Memᴰ-Permᴰ cmd (cons e p) (head f) = head (f ∙ e)
Memᴰ-Permᴰ cmd (cons e p) (tail m) = tail (Memᴰ-Permᴰ cmd p m)
Memᴰ-Permᴰ cmd (swap e f) (head g) = tail (head (g ∙ e))
Memᴰ-Permᴰ cmd (swap e f) (tail (head g)) = head (g ∙ f)
Memᴰ-Permᴰ cmd (swap e f) (tail (tail m)) = tail (tail m)
Memᴰ-Permᴰ cmd (trans p q) m = Memᴰ-Permᴰ cmd q (Memᴰ-Permᴰ cmd p m)

-- A command whose name no other has is found by its name, in whatever order the table is.
pub lookup-Permᴰ :
    {xs ys : List FinshSyscall} (cmd : FinshSyscall)
    → AreApart xs
    → Permᴰ xs ys
    → Memᴰ cmd xs
    → lookup ys cmd.name ≡ some cmd.func
lookup-Permᴰ cmd apart p m = lookup-Memᴰ cmd _ (AreApart-Permᴰ p apart) (Memᴰ-Permᴰ cmd p m)
