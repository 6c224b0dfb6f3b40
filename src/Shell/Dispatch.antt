-- ===== src/Shell/Dispatch.antt =====
-- Which command a line runs, by a definition on its words, and `msh_exec`.
use motor_test.Base.{ℕ, suc, ◌≡◌, ◌≢◌, refl, sym, ap, ◌∙◌, arith, ◌==◌}
use motor_test.Base.{ne→==, ==_true, ==_false, false, Bool-cases, inl, inr, if◌then◌else◌, ◌&&◌}
use motor_test.Base.{List, [], ◌∷◌, ◌++◌, All, length, get_or, Option, some, none}
use motor_test.Base.Int.{pos, negsuc}
use mathlib.Core.List.{append_assoc}
use motor_test.Base.Memory.{take}
use motor_test.Shell.{Done, Command}
pub use motor_test.Shell.Names.{NonZero, IsString}
use motor_test.Shell.Names.{tail_of, strncmp_equal, memcmp_equal}
use motor_test.Shell.Table.{FinshSyscall, names_of, msh_get_cmd}
use motor_test.Shell.Split.{is_blank, Cut, strings_of}
use motor_test.Shell.Exec.{
  cmd0_size, call_with, call_found, exec_cmd, nothing_done, done_or_unknown, done_of, exec_trimmed,
  msh_exec,
}
use motor_test.Shell.Words.{
  words, word, behind_word, str, behind_str, trim, trim-cases, words_plain, words_quoted,
}
use motor_test.Shell.Words.Room.{msh_split-words}
use motor_test.Shell.Words.Strings.{trim-IsString, word-IsString}
use mathlib.Core.Path.{subst}

-- The first command of that name.
unfoldable pub lookup : List FinshSyscall → List ℕ → Option Command
lookup [] name = none
lookup (cmd ∷ rest) name = if memcmp_equal cmd.name name then some cmd.func else lookup rest name

abbrev pub done_by : Option Command → List (List ℕ) → Done
done_by none argv = nothing_done (negsuc 0)
done_by (some func) argv = func argv

-- What a line does. The bytes before its first blank name the command, quotes and all; it gets the words
-- of the line, eight at most.
abbrev pub run_trimmed : List FinshSyscall → List ℕ → Done
run_trimmed commands [] = nothing_done (pos 0)
run_trimmed commands (c ∷ cs) = done_by (lookup commands (word (c ∷ cs))) (take 8 (words (c ∷ cs)))

unfoldable pub run_text : List FinshSyscall → List ℕ → Done
run_text commands text = run_trimmed commands (trim text)

strncmp_name :
    (name w rest : List ℕ)
    → IsString name
    → IsString w
    → (strncmp_equal (length w) name (w ++ rest) && (get_or name (length w) 0 == 0))
      ≡ memcmp_equal name w
unfolding strncmp_equal memcmp_equal
strncmp_name [] [] rest h g = refl
strncmp_name (n ∷ ns) [] rest h g = ne→== n 0 (h.0)
strncmp_name [] (c ∷ cs) rest h g = rw (ne→== 0 c (λ e. g.0 (sym e))) refl
strncmp_name (n ∷ ns) (c ∷ cs) rest h g = elim (Bool-cases (n == c)) [
  | inl p ↦ rw (p, ne→== n 0 (h.0)) (strncmp_name ns cs rest (h.1) (g.1))
  | inr p ↦ rw p refl
]

msh_get_cmd-lookup :
    (commands : List FinshSyscall) (w rest : List ℕ)
    → All IsString (names_of commands)
    → IsString w
    → msh_get_cmd commands (w ++ rest) (length w) ≡ lookup commands w
unfolding msh_get_cmd lookup
msh_get_cmd-lookup [] w rest h g = refl
msh_get_cmd-lookup (cmd ∷ commands) w rest h g =
    rw (strncmp_name cmd.name w rest (h.0) g, msh_get_cmd-lookup commands w rest (h.1) g) refl

word-append : (text : List ℕ) → word text ++ behind_word text ≡ text
word-append [] = refl
word-append (c ∷ cs) = elim (Bool-cases (is_blank c)) [
  | inl p ↦ rw p refl
  | inr p ↦ rw p (ap (c ∷◌) (word-append cs))
]

cmd0_size_lem : (text tail : List ℕ) → cmd0_size (text ++ tail) (length text) ≡ length (word text)
unfolding cmd0_size
cmd0_size_lem [] tail = refl
cmd0_size_lem (c ∷ cs) tail = elim (Bool-cases (is_blank c)) [
  | inl p ↦ rw p refl
  | inr p ↦ rw (p, cmd0_size_lem cs tail) refl
]

msh_exec-trim :
    (commands : List FinshSyscall) (text tail : List ℕ)
    → msh_exec commands (text ++ tail) (length text)
      ≡ exec_trimmed commands (trim text ++ tail) (length (trim text))
unfolding msh_exec exec_trimmed
msh_exec-trim commands [] tail = refl
msh_exec-trim commands (c ∷ cs) tail = elim (Bool-cases (is_blank c)) [
  | inl p ↦ rw p (msh_exec-trim commands cs tail)
  | inr p ↦ rw p refl
]

-- The call on the words of a line.
abbrev call_words : Option Command → List (List ℕ) → Option Done
call_words none words = none
call_words (some func) words = call_with func words

call_found-words :
    (o : Option Command) (cut : Cut)
    → call_found o (some cut) ≡ some (call_words o (strings_of cut.bytes cut.argv))
call_found-words none cut = refl
call_found-words (some func) cut = refl

-- A command that begins with its name.
exec_cmd-lookup :
    (commands : List FinshSyscall) (c : ℕ) (cs z : List ℕ)
    → All IsString (names_of commands)
    → IsString (c ∷ cs)
    → is_blank c ≡ false
    → exec_cmd commands (c ∷ cs ++ 0 ∷ z) (suc (length cs))
      ≡ some (call_words (lookup commands (word (c ∷ cs))) (take 8 (words (c ∷ cs))))
unfolding exec_cmd
exec_cmd-lookup commands c cs z strings h p =
    let text = c ∷ cs in
    let w = word text in
    let whole : text ++ 0 ∷ z ≡ w ++ (behind_word text ++ 0 ∷ z) =
      ap (λ xs. xs ++ 0 ∷ z) (sym (word-append text)) ∙ append_assoc w (behind_word text) (0 ∷ z) in
    let some_name : length w ≢ 0 = rw p (λ e. omega arith) in
    let found : msh_get_cmd commands (text ++ 0 ∷ z) (length w) ≡ lookup commands w =
      ap (λ xs. msh_get_cmd commands xs (length w)) whole
      ∙ msh_get_cmd-lookup commands w (behind_word text ++ 0 ∷ z) strings (word-IsString text h) in
    let cut = msh_split-words text z h in
    rw (cmd0_size_lem text (0 ∷ z), ne→== (length w) 0 some_name, found, cut.1)
      (call_found-words (lookup commands w) cut.0
        ∙ ap (λ ws. some (call_words (lookup commands w) ws)) cut.2)

-- A line that does not begin with a blank has a word.
some_words :
    (c : ℕ) (cs : List ℕ)
    → is_blank c ≡ false
    → (w : List ℕ) × (ws : List (List ℕ)) × (words (c ∷ cs) ≡ w ∷ ws)
some_words c cs p = elim (Bool-cases (c == b'"')) [
  | inl q ↦ (
    str cs,
    words (tail_of (behind_str cs)),
    ap (λ b. words (b ∷ cs)) (==_true c b'"' q) ∙ words_quoted cs,
  )
  | inr q ↦ (word (c ∷ cs), words (behind_word (c ∷ cs)), words_plain c cs p (==_false c b'"' q))
]

called :
    (o : Option Command) (ws : List (List ℕ)) (v : List ℕ) (vs : List (List ℕ))
    → ws ≡ v ∷ vs
    → done_or_unknown (call_words o (take 8 ws)) ≡ done_by o (take 8 ws)
unfolding call_with
called none ws v vs e = refl
called (some func) ws v vs e = rw e refl

-- Where no name in the table has a 0 in it, a line without zeros runs the first command of the table
-- whose name stands before the first blank of the line, on the first eight words, with no write
-- behind `argv`; an empty line does nothing and gives 0, and a name that is not in the table gives -1.
pub msh_exec-run_text :
    (commands : List FinshSyscall) (text z : List ℕ)
    → All IsString (names_of commands)
    → IsString text
    → msh_exec commands (text ++ 0 ∷ z) (length text) ≡ some (run_text commands text)
unfolding run_text exec_trimmed
msh_exec-run_text commands text z strings h = elim (trim-cases text) [
  | inl e ↦ msh_exec-trim commands text (0 ∷ z) ∙ rw e refl
  | inr (c, cs, e, p) ↦
      let string : IsString (c ∷ cs) = subst IsString e (trim-IsString text h) in
      let some_word = some_words c cs p in
      msh_exec-trim commands text (0 ∷ z)
      ∙ ap (λ xs. exec_trimmed commands (xs ++ 0 ∷ z) (length xs)) e
      ∙ ap done_of (exec_cmd-lookup commands c cs z strings string p)
      ∙ ap some (
          called (lookup commands (word (c ∷ cs))) (words (c ∷ cs)) some_word.0 some_word.1
            some_word.2
          ∙ ap (run_trimmed commands) (sym e))
]
