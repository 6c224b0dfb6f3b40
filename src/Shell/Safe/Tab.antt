-- ===== src/Shell/Safe/Tab.antt =====
-- The completion keeps the invariant of the shell while the line ends with two zeros.
use motor_test.Base.{ℕ, ◌≤◌, ◌<◌, ◌≡◌, refl, ◌∙◌, arith, ltb, ◌==◌, if_elim}
use motor_test.Base.{ltb→lt, Bool-cases, inl, inr}
use motor_test.Base.{List, [], ◌∷◌, All, length, get_or, Option, some, none}
use motor_test.Base.Memory.Laws.{SameFrom, SameFrom-refl, memcpy_lem, strlen_lem}
use motor_test.Shell.{FinshShell}
use motor_test.Shell.Names.{head_or, strncmp_equal}
use motor_test.Shell.Table.{FinshSyscall, names_of}
use motor_test.Shell.Complete.{
  Found, shorten, take_in, find_names, nothing_found, write_name, msh_auto_complete, str_common,
}
use motor_test.Shell.Keys.{tab_key}
use motor_test.Shell.Safe.{IsSafe, Safely}

-- A name that fits a line, and at most its length to be copied.
abbrev FitsLine : Option (List ℕ) → ℕ → Type 0
FitsLine none n = Unit
FitsLine (some name) n = (n ≤ length name) × (length name < 128)

shorten-FitsLine :
    (cmd_name : List ℕ) (name_ptr : Option (List ℕ)) (n : ℕ)
    → FitsLine name_ptr n
    → let found = shorten cmd_name (record { name_ptr = name_ptr; min_length = n }) name_ptr in
      FitsLine found.name_ptr found.min_length
unfolding shorten
shorten-FitsLine cmd_name none n h = tt
shorten-FitsLine cmd_name (some name) n h =
    if_elim (λ (f : Found). FitsLine f.name_ptr f.min_length) (ltb (str_common name cmd_name) n)
      (λ less. (omega (arith, ltb→lt _ _ less, h.0), h.1)) (λ enough. h)

take_in-FitsLine :
    (cmd_name : List ℕ) (found : Found)
    → length cmd_name < 128
    → FitsLine found.name_ptr found.min_length
    → FitsLine (take_in cmd_name found).name_ptr (take_in cmd_name found).min_length
unfolding take_in
take_in-FitsLine cmd_name found l h =
    if_elim
      (λ (kept : Found).
        FitsLine (shorten cmd_name kept kept.name_ptr).name_ptr
          (shorten cmd_name kept kept.name_ptr).min_length)
      (found.min_length == 0)
      (λ first. shorten-FitsLine cmd_name (some cmd_name) (length cmd_name) (omega arith, l))
      (λ later. shorten-FitsLine cmd_name found.name_ptr found.min_length h)

abbrev pub IsShort : List ℕ → Type 0
IsShort name = length name < 128

find_names-FitsLine :
    (prefix : List ℕ) (len : ℕ) (names : List (List ℕ)) (found : Found)
    → All IsShort names
    → FitsLine found.name_ptr found.min_length
    → FitsLine
        (find_names prefix len names found).name_ptr
        (find_names prefix len names found).min_length
unfolding find_names
find_names-FitsLine prefix len [] found a h = h
find_names-FitsLine prefix len (cmd_name ∷ names) found a h =
    find_names-FitsLine prefix len names _ a.1 (
      if_elim (λ (f : Found). FitsLine f.name_ptr f.min_length) (strncmp_equal len prefix cmd_name)
        (λ e. take_in-FitsLine cmd_name found a.0 h) (λ e. h))

-- A completion keeps the bytes from 127 on.
write_name-SameFrom :
    (line : List ℕ) (n : ℕ) (name_ptr : Option (List ℕ))
    → length line ≡ 129
    → FitsLine name_ptr n
    → (out : List ℕ) × (write_name line n name_ptr ≡ some out) × SameFrom 127 line out
unfolding write_name
write_name-SameFrom line n none e h = (line, refl, SameFrom-refl 127 line)
write_name-SameFrom line n (some name) e h =
    let copied = memcpy_lem line name n h.0 (omega (arith, h.0, h.1)) in
    (
      copied.0,
      copied.1,
      record {
        same_length = copied.2.same_length;
        same_from = λ i d l. copied.2.same_from i d (omega (arith, h.0, h.1));
      },
    )

msh_auto_complete-SameFrom :
    (names : List (List ℕ)) (line : List ℕ)
    → All IsShort names
    → length line ≡ 129
    → get_or line 127 1 ≡ 0
    → (out : List ℕ) × (msh_auto_complete names line ≡ some out) × SameFrom 127 line out
unfolding msh_auto_complete
msh_auto_complete-SameFrom names line a e z = elim (Bool-cases (head_or line == 0)) [
  | inl p ↦ (line, rw p refl, SameFrom-refl 127 line)
  | inr p ↦
      let n = strlen_lem line 127 z in
      let fits = find_names-FitsLine line n.0 names nothing_found a tt in
      let found = find_names line n.0 names nothing_found in
      let written = write_name-SameFrom line found.min_length found.name_ptr e fits in
      (written.0, rw (p, n.1) (written.1), written.2)
]

-- While the line ends with two zeros, a completion does so too.
pub tab_key-IsSafe :
    (commands : List FinshSyscall) (s : FinshShell)
    → All IsShort (names_of commands)
    → IsSafe s
    → get_or s.line 127 1 ≡ 0
    → Safely (tab_key commands s)
unfolding tab_key
tab_key-IsSafe commands s a h z =
    let done = msh_auto_complete-SameFrom (names_of commands) s.line a h.text.sized z in
    let n = strlen_lem done.0 127 (done.2.same_from 127 1 (omega arith) ∙ z) in
    rw (done.1, n.1)
      (record {
        text = record {
          sized = done.2.same_length ∙ h.text.sized;
          ended = done.2.same_from 128 1 (omega arith) ∙ h.text.ended;
          cursor = omega arith;
          room = omega (arith, n.2);
        };
        past = h.past;
      })
