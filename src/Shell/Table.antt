-- ===== src/Shell/Table.antt =====
-- The table of commands and the list of log flags. Both are lists of the list library; what the shell
-- needs of it is an interface.
use motor_test.Base.{ℕ, zero, ◌≡◌, ◌&&◌, if◌then◌else◌, ◌==◌, List, [], ◌∷◌, ◌++◌, get_or}
use motor_test.Base.{Option, some, none}
use motor_test.Base.Int.{ℤ, pos}
use motor_test.Shell.{Command}
use motor_test.Shell.Names.{strncmp_equal, strcasecmp_equal}

-- Lists with a node put in at the head, and walked from the tail: `LIST_HEAD`, `list_add` and
-- `list_for_each_prev_safe`.
pub record ListOps (A : Type 0) : Type 1 where
  pub ListHead : Type 0
  pub list_head : ListHead
  pub list_add : A → ListHead → ListHead
  pub for_each_prev : ListHead → List A
  pub for_each_prev-list_head : for_each_prev list_head ≡ []
  pub for_each_prev-list_add :
      (x : A) (l : ListHead) → for_each_prev (list_add x l) ≡ for_each_prev l ++ x ∷ []

pub record FinshSyscall : Type 0 where
  pub name : List ℕ
  pub desc : List ℕ
  pub func : Command

module _ (ops : ListOps FinshSyscall) where
  unfoldable pub cmd_list_add : FinshSyscall → ops.ListHead → ops.ListHead
  cmd_list_add cmd func_list = ops.list_add cmd func_list

  -- The commands that the loops over `func_list` meet, in their order.
  abbrev pub commands : ops.ListHead → List FinshSyscall
  commands func_list = ops.for_each_prev func_list

-- The names in the order of the list, as `help` and the completion meet them.
abbrev pub names_of : List FinshSyscall → List (List ℕ)
names_of [] = []
names_of (cmd ∷ rest) = cmd.name ∷ names_of rest

-- The first command whose name is the first `size` bytes of `cmds`.
unfoldable pub msh_get_cmd : List FinshSyscall → List ℕ → ℕ → Option Command
msh_get_cmd [] cmds size = none
msh_get_cmd (index ∷ rest) cmds size =
    if strncmp_equal size index.name cmds && (get_or index.name size 0 == 0)
    then some index.func
    else msh_get_cmd rest cmds size

pub record SpdkLogFlag : Type 0 where
  pub name : List ℕ
  pub enabled : ℤ

module _ (ops : ListOps SpdkLogFlag) where
  unfoldable pub spdk_log_register_flag : SpdkLogFlag → ops.ListHead → ℤ × ops.ListHead
  spdk_log_register_flag flag log_list = (pos 0, ops.list_add flag log_list)

-- The first flag of that name, whatever the case of its letters.
unfoldable pub get_log_flag : List ℕ → List SpdkLogFlag → Option SpdkLogFlag
get_log_flag name [] = none
get_log_flag name (flag ∷ rest) =
    if strcasecmp_equal name flag.name then some flag else get_log_flag name rest

abbrev enabled_code : Option SpdkLogFlag → ℤ
enabled_code none = pos 0
enabled_code (some flag) = elim flag.enabled [ pos zero ↦ pos 0 | other ↦ pos 1 ]

unfoldable pub spdk_log_get_flag : List ℕ → List SpdkLogFlag → ℤ
unfolding get_log_flag
spdk_log_get_flag name log_list = enabled_code (get_log_flag name log_list)
