-- ===== src/Shell/Split.antt =====
-- `msh_split` of libfinsh/finsh.c: cutting a command into words, in place. The loops go on with the
-- bytes from `ptr` on, `rest`, and `left`, which is `length - position`; `position` is 0 at `cmd`. A byte
-- that is read behind the buffer counts as 0.
use motor_test.Base.{
  ℕ, zero, suc, ◌+◌, ◌-◌, Bool, ◌&&◌, ◌||◌, if◌then◌else◌, leb, ◌==◌, List, [], ◌∷◌, ◌++◌, length,
  Option, some, none,
}
use motor_test.Base.Memory.{drop}
use motor_test.Shell.{finsh_arg_max}
use motor_test.Shell.Names.{head_or, tail_of}

abbrev pub is_blank : ℕ → Bool
is_blank c = (c == b' ') || (c == b'\t')

-- A loop that has moved on: the bytes that it has passed over, as it leaves them, and where it stands.
pub record Passed : Type 0 where
  pub bytes : List ℕ
  pub left : ℕ
  pub rest : List ℕ

abbrev pub pass : ℕ → Passed → Passed
pass c p = record p { bytes = c ∷ p.bytes }

-- Blanks and tabs are overwritten with 0.
unfoldable pub strip : ℕ → List ℕ → Passed
strip zero rest = record { bytes = []; left = 0; rest = rest }
strip (suc n) rest =
    let further = strip n (tail_of rest) in
    if is_blank (head_or rest)
    then pass 0 further
    else record { bytes = []; left = suc n; rest = rest }

unfoldable pub skip_word : ℕ → List ℕ → Passed
skip_word zero rest = record { bytes = []; left = 0; rest = rest }
skip_word (suc n) rest =
    let further = skip_word n (tail_of rest) in
    if is_blank (head_or rest)
    then record { bytes = []; left = suc n; rest = rest }
    else pass (head_or rest) further

-- An escaped quote is passed over, together with its backslash; at the last byte of the command the
-- second of them lies behind it, and `position` is beyond `length`.
unfoldable pub skip_string : ℕ → List ℕ → Passed
skip_string zero rest = record { bytes = []; left = 0; rest = rest }
skip_string (suc zero) rest =
    let c = head_or rest in
    let d = head_or (tail_of rest) in
    if c == b'"'
    then record { bytes = []; left = 1; rest = rest }
    else if (c == b'\\') && (d == b'"')
    then record { bytes = c ∷ d ∷ []; left = 0; rest = tail_of (tail_of rest) }
    else record { bytes = c ∷ []; left = 0; rest = tail_of rest }
skip_string (suc (suc n)) rest =
    let c = head_or rest in
    let d = head_or (tail_of rest) in
    let after_one = skip_string (suc n) (tail_of rest) in
    let after_two = skip_string n (tail_of (tail_of rest)) in
    if c == b'"'
    then record { bytes = []; left = suc (suc n); rest = rest }
    else if (c == b'\\') && (d == b'"')
    then pass c (pass d after_two)
    else pass c after_one

-- The buffer from `ptr` on as the function leaves it, and where the words start that it finds.
pub record Cut : Type 0 where
  pub bytes : List ℕ
  pub argv : List ℕ

abbrev pub behind : List ℕ → Cut → Cut
behind bytes c = record c { bytes = bytes ++ c.bytes }

abbrev pub word_at : ℕ → Cut → Cut
word_at start c = record c { argv = start ∷ c.argv }

abbrev pub stop : List ℕ → Cut
stop rest = record { bytes = rest; argv = [] }

-- The outer loop; each turn but the last takes a byte at least, so `length + 1` turns are enough.
unfoldable pub split : ℕ → ℕ → List ℕ → ℕ → ℕ → Cut
unfolding strip skip_word skip_string
split zero left rest position argc = stop rest
split (suc fuel) zero rest position argc = stop rest
split (suc fuel) (suc n) rest position argc =
    let blanks = strip (suc n) rest in
    let start = position + length blanks.bytes in
    let quoted = skip_string (blanks.left - 1) (tail_of blanks.rest) in
    let plain = skip_word blanks.left blanks.rest in
    let after_quoted =
      split fuel (quoted.left - 1) (tail_of quoted.rest) (start + 1 + length quoted.bytes + 1)
        (argc + 1) in
    let after_plain = split fuel plain.left plain.rest (start + length plain.bytes) (argc + 1) in
    if leb finsh_arg_max argc
    then behind blanks.bytes (stop blanks.rest)
    else if blanks.left == 0
    then behind blanks.bytes (stop blanks.rest)
    else if head_or blanks.rest == b'"'
    then behind blanks.bytes (
        word_at (start + 1) (
          behind (b'"' ∷ quoted.bytes)
            (if quoted.left == 0 then stop quoted.rest else behind (0 ∷ []) after_quoted)))
    else behind blanks.bytes (
        word_at start
          (behind plain.bytes (if plain.left == 0 then stop plain.rest else after_plain)))

-- `none` is a write behind the `FINSH_ARG_MAX` pointers of `argv`.
unfoldable pub msh_split : List ℕ → ℕ → Option Cut
unfolding split
msh_split cmd len =
    let cut = split (len + 1) len cmd 0 0 in
    if leb (length cut.argv) finsh_arg_max then some cut else none

-- The string that a pointer into the buffer stands for.
abbrev pub until_zero : List ℕ → List ℕ
until_zero [] = []
until_zero (c ∷ cs) = let rest = until_zero cs in if c == 0 then [] else c ∷ rest

abbrev pub string_at : List ℕ → ℕ → List ℕ
string_at bytes start = until_zero (drop start bytes)

abbrev pub strings_of : List ℕ → List ℕ → List (List ℕ)
strings_of bytes [] = []
strings_of bytes (start ∷ starts) = string_at bytes start ∷ strings_of bytes starts
