-- ===== src/Shell/Names.antt =====
-- Comparing names: the C library's `strncmp` and `strcasecmp` as far as the shell uses them. A name
-- is the list of its characters; behind the last stands the terminating 0.
use motor_test.Base.{
  ℕ, zero, suc, ◌+◌, Bool, true, false, ◌&&◌, if◌then◌else◌, leb, ◌==◌, List, [], ◌∷◌, All, ◌≢◌,
}

-- Names and lines are strings: no 0 is in them.
abbrev pub NonZero : ℕ → Type 0
NonZero c = c ≢ 0

abbrev pub IsString : List ℕ → Type 0
IsString name = All NonZero name

abbrev pub head_or : List ℕ → ℕ
head_or [] = 0
head_or (c ∷ cs) = c

abbrev pub tail_of : List ℕ → List ℕ
tail_of [] = []
tail_of (c ∷ cs) = cs

-- `strncmp(xs, ys, n) == 0`.
unfoldable pub strncmp_equal : ℕ → List ℕ → List ℕ → Bool
strncmp_equal zero xs ys = true
strncmp_equal (suc n) xs ys =
    let rest = strncmp_equal n (tail_of xs) (tail_of ys) in
    if head_or xs == head_or ys then (if head_or xs == 0 then true else rest) else false

-- `memcmp` of two buffers of one length, as a test of equality.
unfoldable pub memcmp_equal : List ℕ → List ℕ → Bool
memcmp_equal [] [] = true
memcmp_equal (x ∷ xs) (y ∷ ys) = let rest = memcmp_equal xs ys in if x == y then rest else false
memcmp_equal xs ys = false

abbrev pub to_lower : ℕ → ℕ
to_lower c = if leb b'A' c && leb c b'Z' then c + 32 else c

-- `strcasecmp(xs, ys) == 0`.
unfoldable pub strcasecmp_equal : List ℕ → List ℕ → Bool
strcasecmp_equal [] [] = true
strcasecmp_equal (x ∷ xs) (y ∷ ys) =
    let rest = strcasecmp_equal xs ys in if to_lower x == to_lower y then rest else false
strcasecmp_equal xs ys = false
