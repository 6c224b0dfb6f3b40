-- ===== src/Shell/Complete.antt =====
-- The completion of a name, `msh_auto_complete` of libfinsh/finsh.c.
use motor_test.Base.{ℕ, suc, if◌then◌else◌, ltb, ◌==◌, List, [], ◌∷◌, length, Option, some, none}
use motor_test.Base.Memory.{memcpy, strlen}
use motor_test.Shell.Names.{head_or, strncmp_equal}

-- The length of the part that two names share.
unfoldable pub str_common : List ℕ → List ℕ → ℕ
str_common [] ys = 0
str_common xs [] = 0
str_common (x ∷ xs) (y ∷ ys) = let rest = str_common xs ys in if x == y then suc rest else 0

-- `name_ptr` and `min_length`.
pub record Found : Type 0 where
  pub name_ptr : Option (List ℕ)
  pub min_length : ℕ

-- `min_length` goes down to what the name shares with the first one.
unfoldable pub shorten : List ℕ → Found → Option (List ℕ) → Found
unfolding str_common
shorten cmd_name found none = found
shorten cmd_name found (some name) =
    let len = str_common name cmd_name in
    if ltb len found.min_length then record found { min_length = len } else found

-- A name that begins with the prefix; the first one sets `name_ptr`.
unfoldable pub take_in : List ℕ → Found → Found
unfolding shorten
take_in cmd_name found =
    let kept =
      if found.min_length == 0
      then record { name_ptr = some cmd_name; min_length = length cmd_name }
      else found in
    shorten cmd_name kept kept.name_ptr

-- The loop over the commands; `len` is the length of the prefix.
unfoldable pub find_names : List ℕ → ℕ → List (List ℕ) → Found → Found
unfolding take_in
find_names prefix len [] found = found
find_names prefix len (cmd_name ∷ names) found =
    find_names prefix len names
      (if strncmp_equal len prefix cmd_name then take_in cmd_name found else found)

abbrev pub nothing_found : Found
nothing_found = record { name_ptr = none; min_length = 0 }

-- The shared part of the names overwrites the prefix.
unfoldable pub write_name : List ℕ → ℕ → Option (List ℕ) → Option (List ℕ)
write_name line min_length none = some line
write_name line min_length (some name) = memcpy line name min_length

abbrev pub complete_to : List (List ℕ) → List ℕ → Option ℕ → Option (List ℕ)
complete_to names line none = none
complete_to names line (some len) =
    let found = find_names line len names nothing_found in
    write_name line found.min_length found.name_ptr

-- The line afterwards; what is printed is left out.
unfoldable pub msh_auto_complete : List (List ℕ) → List ℕ → Option (List ℕ)
msh_auto_complete names line =
    if head_or line == 0 then some line else complete_to names line (strlen line)
