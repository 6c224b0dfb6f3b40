-- ===== src/Shell/Registry.antt =====
-- The table of commands as `cmd_list_add` builds it, on any list that keeps the laws of `ListOps`.
use motor_test.Base.{
  ◌≡◌, refl, ap, ◌∙◌, Bool-cases, inl, inr, ℕ, List, [], ◌∷◌, ◌++◌, Option, some, none,
}
use motor_test.Shell.{Command}
use motor_test.Shell.Names.{memcmp_equal}
use motor_test.Shell.Table.{ListOps, FinshSyscall, cmd_list_add, commands}
use motor_test.Shell.Dispatch.{lookup}

abbrev pub or_else : Option Command → Option Command → Option Command
or_else none other = other
or_else (some func) other = some func

lookup-append :
    (xs ys : List FinshSyscall) (name : List ℕ)
    → lookup (xs ++ ys) name ≡ or_else (lookup xs name) (lookup ys name)
unfolding lookup
lookup-append [] ys name = refl
lookup-append (cmd ∷ xs) ys name = elim (Bool-cases (memcmp_equal cmd.name name)) [
  | inl p ↦ rw p refl
  | inr p ↦ rw p (lookup-append xs ys name)
]

module _ (ops : ListOps FinshSyscall) (func_list : ops.ListHead) (cmd : FinshSyscall) where
  -- A command that is registered takes nothing from the earlier ones: a name that they have still
  -- stands for the same command, and only another may stand for the new one.
  pub lookup-cmd_list_add :
      (name : List ℕ)
      → lookup (commands ops (cmd_list_add ops cmd func_list)) name
        ≡ or_else (lookup (commands ops func_list) name) (lookup (cmd ∷ []) name)
  unfolding cmd_list_add
  lookup-cmd_list_add name =
      ap (λ xs. lookup xs name) (ops.for_each_prev-list_add cmd func_list)
      ∙ lookup-append (commands ops func_list) (cmd ∷ []) name
