-- ===== src/Tests/Session.antt =====
-- The theorems on typed lines, at concrete lines.
use motor_test.Base.{ℕ, ◌≡◌, refl, arith, true, false, List, [], ◌∷◌, ◌++◌, All, some, none}
use motor_test.Base.Int.{pos}
use motor_test.Base.Memory.{replicate, All-replicate}
use motor_test.Shell.{FinshShell, Done, Command, cleared_shell}
use motor_test.Shell.Names.{memcmp_equal}
use motor_test.Shell.Table.{FinshSyscall, names_of}
use motor_test.Shell.Split.{Cut, msh_split, strings_of}
use motor_test.Shell.Exec.{quit, msh_exec}
use motor_test.Shell.History.{up_key}
use motor_test.Shell.Keys.{finsh_loop, finsh_key, finsh}
use motor_test.Shell.Editor.{
  text, Edit, put, erase, left, right, IsKey, keys_all, perform, perform_all, Shows,
}
use motor_test.Shell.Editor.Runs.{Leads, perform_all-Leads}
use motor_test.Shell.Recall.{up_key-enter}
use motor_test.Shell.Words.{words, fields}
use motor_test.Shell.Words.Room.{msh_split-words}
use motor_test.Shell.Dispatch.{lookup, run_text, IsString, msh_exec-run_text}
use motor_test.Shell.Session.{AreTyped, typed_lines, run_lines, after_lines}
use motor_test.Shell.Desk.{Key, edit, tab, up, press, press_all, enter, remember, Mirrors}
use motor_test.Shell.Start.{
  cleared_shell-Shows, fresh, line_done, desk_after, finsh-run_lines, finsh-quits,
}
use motor_test.Shell.Overrun.{finsh-overruns}
use motor_test.Shell.Editor.Typing.{IsPrintable}
use motor_test.Shell.Safe.Tab.{IsShort}
use motor_test.Shell.Keys.{tab_key}
use motor_test.Shell.Editor.{Keeps}
use motor_test.Shell.Table.{ListOps, cmd_list_add, commands}
use motor_test.Shell.Completion.{completion}
use motor_test.Shell.Completion.Key.{tab_key-completion}

-- A command that returns 7.
abbrev seven : Command
seven argv = record { code = pos 7; quits = false; actions = [] }

abbrev table : List FinshSyscall
table =
    record { name = b'g' ∷ b'o' ∷ []; desc = []; func = seven }
    ∷ record { name = b'q' ∷ []; desc = []; func = quit }
    ∷ []

table-IsString : All IsString (names_of table)
table-IsString = ((λ e. omega arith, (λ e. omega arith, tt)), ((λ e. omega arith, tt), tt))

table-IsShort : All IsShort (names_of table)
table-IsShort = (omega arith, (omega arith, tt))

-- `go`, with a wrong letter taken back, and the cursor moved to and fro.
abbrev fixing : List Edit
fixing = put b'g' ∷ put b'x' ∷ erase ∷ put b'o' ∷ left ∷ right ∷ []

fixing-IsKey : All IsKey fixing
fixing-IsKey = (
  (omega arith, omega arith),
  ((omega arith, omega arith), (tt, ((omega arith, omega arith), (tt, (tt, tt))))),
)

perform_all-Leads_example : Leads table cleared_shell (keys_all fixing) (text (b'o' ∷ b'g' ∷ []) [])
unfolding perform_all perform
perform_all-Leads_example =
    perform_all-Leads table cleared_shell (text [] []) fixing fixing-IsKey cleared_shell-Shows
      (omega arith)

-- The shell when `go` stands in the line.
abbrev going : FinshShell
going = record cleared_shell {
  line = b'g' ∷ b'o' ∷ replicate 127 0;
  line_position = 2;
  line_curpos = 2;
}

going-Shows : Shows (text (b'o' ∷ b'g' ∷ []) []) going
going-Shows = record {
  spare = 125;
  bytes = refl;
  cursor = refl;
  position = refl;
  room = refl;
  normal = refl;
}

up_key-enter_example :
    (entered : FinshShell) × (ran : List Done) × (back : FinshShell) × (finsh_key table going b'\n'
      ≡ some (entered, ran))
    × (up_key entered ≡ some back)
    × (entered.line_position ≡ 0)
    × (back.line ≡ going.line)
    × (back.line_position ≡ 2)
    × (back.line_curpos ≡ 2)
up_key-enter_example =
    up_key-enter table going (text (b'o' ∷ b'g' ∷ []) []) going-Shows
      (λ e. omega arith, (λ e. omega arith, tt)) (omega arith) refl (omega arith)

-- `go  "4 \"5"6`
abbrev spaced : List ℕ
spaced = b'g' ∷ b'o' ∷ b' ' ∷ b' ' ∷ b'"' ∷ b'4' ∷ b' ' ∷ b'\\' ∷ b'"' ∷ b'5' ∷ b'"' ∷ b'6' ∷ []

spaced-IsString : IsString spaced
spaced-IsString = (
  λ e. omega arith,
  (
    λ e. omega arith,
    (
      λ e. omega arith,
      (
        λ e. omega arith,
        (
          λ e. omega arith,
          (
            λ e. omega arith,
            (
              λ e. omega arith,
              (
                λ e. omega arith,
                (λ e. omega arith, (λ e. omega arith, (λ e. omega arith, (λ e. omega arith, tt)))),
              ),
            ),
          ),
        ),
      ),
    ),
  ),
)

msh_split-words_example :
    (cut : Cut) × (msh_split (spaced ++ 0 ∷ []) 12 ≡ some cut)
    × (strings_of cut.bytes cut.argv
        ≡ (b'g' ∷ b'o' ∷ []) ∷ (b'4' ∷ b' ' ∷ b'\\' ∷ b'"' ∷ b'5' ∷ []) ∷ (b'6' ∷ []) ∷ [])
unfolding words fields
msh_split-words_example = msh_split-words spaced [] spaced-IsString

msh_exec-run_text_example :
    msh_exec table (spaced ++ 0 ∷ []) 12
    ≡ some (record { code = pos 7; quits = false; actions = [] })
unfolding words fields run_text lookup memcmp_equal
msh_exec-run_text_example = msh_exec-run_text table spaced [] table-IsString spaced-IsString

-- `go` with a wrong letter taken back; the same line again from the history; `q`, completed by a tab.
abbrev first_line : List Key
first_line = edit (put b'g') ∷ edit (put b'x') ∷ edit erase ∷ edit (put b'o') ∷ []

abbrev again : List Key
again = up ∷ []

abbrev quitting : List Key
quitting = edit (put b'q') ∷ tab ∷ []

abbrev three_lines : List (List Key)
three_lines = first_line ∷ again ∷ quitting ∷ []

three_lines-AreTyped : AreTyped table three_lines fresh
unfolding press_all press perform enter remember memcmp_equal completion
three_lines-AreTyped = (
  (
    ((omega arith, omega arith), omega arith),
    (
      ((omega arith, omega arith), omega arith),
      ((tt, omega arith), (((omega arith, omega arith), omega arith), tt)),
    ),
  ),
  ((tt, tt), ((((omega arith, omega arith), omega arith), (tt, tt)), tt)),
)

finsh-run_lines_example :
    let ran = run_lines table three_lines fresh in
    (u : FinshShell) × ((rest : List ℕ)
      → finsh table (typed_lines three_lines ++ rest)
        ≡ after_lines ran.dones ran.ended u (finsh_loop table u rest))
    × Mirrors ran.desk u
finsh-run_lines_example =
    finsh-run_lines table three_lines table-IsString table-IsShort three_lines-AreTyped

quitting_quits :
    (line_done table quitting (desk_after table (first_line ∷ again ∷ []) fresh)).quits ≡ true
unfolding words fields run_text lookup memcmp_equal quit press_all press perform enter remember
    completion
quitting_quits = refl

finsh-quits_example :
    (dones : List Done) × (u : FinshShell) × ((rest : List ℕ)
      → finsh table (typed_lines three_lines ++ rest) ≡ some (dones, u, true))
finsh-quits_example =
    finsh-quits table (first_line ∷ again ∷ []) quitting table-IsString table-IsShort
      three_lines-AreTyped quitting_quits

finsh-overruns_example :
    finsh table (replicate 127 b'x' ++ b'y' ∷ b'\t' ∷ b'z' ∷ 127 ∷ 127 ∷ []) ≡ none
finsh-overruns_example =
    finsh-overruns table (replicate 127 b'x') b'y' b'z' [] table-IsShort refl
      (All-replicate IsPrintable 127 b'x' (omega arith, omega arith)) (omega arith, omega arith)
      (omega arith, omega arith)

-- A `g` in the line.
abbrev begun : FinshShell
begun = record cleared_shell { line = b'g' ∷ replicate 128 0; line_position = 1; line_curpos = 1 }

begun-Shows : Shows (text (b'g' ∷ []) []) begun
begun-Shows = record {
  spare = 126;
  bytes = refl;
  cursor = refl;
  position = refl;
  room = refl;
  normal = refl;
}

abbrev goats : List FinshSyscall
goats =
    record { name = b'g' ∷ b'o' ∷ b'a' ∷ []; desc = []; func = seven }
    ∷ record { name = b'q' ∷ []; desc = []; func = quit }
    ∷ record { name = b'g' ∷ b'o' ∷ []; desc = []; func = seven }
    ∷ []

goats-IsString : All IsString (names_of goats)
goats-IsString = (
  (λ e. omega arith, (λ e. omega arith, (λ e. omega arith, tt))),
  ((λ e. omega arith, tt), ((λ e. omega arith, (λ e. omega arith, tt)), tt)),
)

tab_key-completion_example :
    (u : FinshShell) × (tab_key goats begun ≡ some u)
    × Shows (text (b'o' ∷ b'g' ∷ []) []) u
    × Keeps begun u
unfolding completion
tab_key-completion_example =
    tab_key-completion goats begun (text (b'g' ∷ []) []) begun-Shows (omega arith)
      (λ e. omega arith, tt) goats-IsString (omega arith, (omega arith, (omega arith, tt)))

-- Lists that keep the laws of the interface: the head of the list is the first element.
abbrev reversed : List FinshSyscall → List FinshSyscall
reversed [] = []
reversed (x ∷ xs) = reversed xs ++ x ∷ []

abbrev plain_lists : ListOps FinshSyscall
plain_lists = record {
  ListHead = List FinshSyscall;
  list_head = [];
  list_add = λ x l. x ∷ l;
  for_each_prev = reversed;
  for_each_prev-list_head = refl;
  for_each_prev-list_add = λ x l. refl;
}

-- The first of two commands of one name is the one that runs.
registered_twice :
    lookup
      (commands plain_lists (
        cmd_list_add plain_lists
          (record { name = b'q' ∷ []; desc = []; func = seven })
          (cmd_list_add plain_lists (record { name = b'q' ∷ []; desc = []; func = quit }) [])))
      (b'q' ∷ [])
    ≡ some quit
unfolding cmd_list_add lookup memcmp_equal
registered_twice = refl
