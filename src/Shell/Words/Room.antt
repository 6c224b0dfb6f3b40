-- ===== src/Shell/Words/Room.antt =====
-- `msh_split` of libfinsh/finsh.c never writes behind `argv`, and what it finds.
use motor_test.Base.{
  ℕ, zero, suc, ◌+◌, ◌-◌, ◌≤◌, ◌≡◌, refl, arith, leb, leb→gt, le→leb, ◌==◌, if_elim,
}
use motor_test.Base.{List, [], ◌∷◌, ◌++◌, length, some}
use motor_test.Base.Memory.{take}
use motor_test.Shell.Split.{Cut, strip, skip_word, skip_string, split, msh_split, strings_of}
use motor_test.Shell.Names.{head_or, tail_of, IsString}
use motor_test.Shell.Words.{words}
use motor_test.Shell.Words.Argv.{split-words}

-- A cut that has room for its words behind `argc` others.
abbrev Fits : ℕ → Cut → Type 0
Fits argc c = length c.argv + argc ≤ 8

split-Fits :
    (fuel left : ℕ) (rest : List ℕ) (position argc : ℕ)
    → argc ≤ 8
    → Fits argc (split fuel left rest position argc)
unfolding split
split-Fits zero left rest position argc h = omega arith
split-Fits (suc fuel) zero rest position argc h = omega arith
split-Fits (suc fuel) (suc n) rest position argc h =
    let blanks = strip (suc n) rest in
    let start = position + length blanks.bytes in
    let quoted = skip_string (blanks.left - 1) (tail_of blanks.rest) in
    let plain = skip_word blanks.left blanks.rest in
    if_elim (Fits argc) (leb 8 argc) (λ full. omega arith)
      (λ free.
        let l = leb→gt 8 argc free in
        let more : (k : ℕ) → k + (argc + 1) ≤ 8 → suc k + argc ≤ 8 = λ k f. omega (arith, f) in
        if_elim (Fits argc) (blanks.left == 0) (λ nothing_left. omega arith)
          (λ word_left.
            if_elim (Fits argc) (head_or blanks.rest == b'"')
              (λ opens. more _ (
                if_elim (Fits (argc + 1)) (quoted.left == 0) (λ unclosed. omega arith)
                  (λ closed.
                    split-Fits fuel (quoted.left - 1) (tail_of quoted.rest)
                      (start + 1 + length quoted.bytes + 1) (argc + 1) (omega arith))))
              (λ bare. more _ (
                if_elim (Fits (argc + 1)) (plain.left == 0) (λ at_end. omega arith)
                  (λ goes_on.
                    split-Fits fuel plain.left plain.rest (start + length plain.bytes) (argc + 1)
                      (omega arith))))))

pub msh_split-split :
    (cmd : List ℕ) (len : ℕ) → msh_split cmd len ≡ some (split (len + 1) len cmd 0 0)
unfolding msh_split
msh_split-split cmd len =
    let fits = split-Fits (len + 1) len cmd 0 0 (omega arith) in
    rw (le→leb (length (split (len + 1) len cmd 0 0).argv) 8 (omega (arith, fits))) refl

-- A command line without zeros, followed by a 0, is cut into its words, the first eight of them, with no
-- write behind `argv`: the arguments that `msh_split` finds are the strings of those words, whatever the
-- blanks between them, and those in quotes with their blanks. The words are defined by a reader that goes
-- through the line once.
pub msh_split-words :
    (text z : List ℕ)
    → IsString text
    → (cut : Cut) × (msh_split (text ++ 0 ∷ z) (length text) ≡ some cut)
      × (strings_of cut.bytes cut.argv ≡ take 8 (words text))
msh_split-words text z h =
    let e : length text + 1 ≡ suc (length text) = omega arith in
    (
      split (length text + 1) (length text) (text ++ 0 ∷ z) 0 0,
      msh_split-split (text ++ 0 ∷ z) (length text),
      rw e (split-words (suc (length text)) text z [] 0 (omega arith) h),
    )
