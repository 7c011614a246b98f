-- ===== src/LuaUtils/Tests.antt =====
-- Runs of the printing functions on a table that contains itself.
use petrel.Prelude.{
  ℕ, ◌≡◌, refl, Bool, true, false, Option, if◌then◌else◌, List, [], ◌∷◌, none, some, arith,
}
use Prim.Native.String.{String}
use petrel.LuaUtils.{
  Value, nil, number, chars, table, literal, real, tagged, endl, print, print_table, print_entries,
  print_type, print_type_simple, ◌<+>◌, log_plain_noln,
}
use petrel.LuaUtils.Reference.{shown, print_table-shown}
use petrel.Texts.{codes}
use petrel.Router.Spec.{path_eq}
use petrel.LuaUtils.Scripts.{found, load_script_dir, load_script_dir-scripts}
use petrel.LuaUtils.Dump.{dump_stack}
use petrel.LuaUtils.Dump.Lines.{dump, dump_stack-dump}

abbrev names : Value ℕ → String
names nil = "nil"
names (table id) = "table"
names (chars s) = "string"
names (number n) = "number"
names v = "function"

-- The only table: `t = {5, self = t}`.
abbrev loop_entries : ℕ → List (Value ℕ × Value ℕ)
loop_entries id = (number 1, number 5) ∷ (chars "self", table 0) ∷ []

abbrev address : Value ℕ → ℕ
address v = 4096

print_table-shown_example :
    print_table names loop_entries 7 3 6 0 (some 2) 0 ≡ some (shown names loop_entries 3 0)
print_table-shown_example = print_table-shown names loop_entries 7 3 6 0 2 0 (omega arith)

dump_stack-dump_example :
    dump_stack names loop_entries 7 address 2 true (table 0 ∷ chars "a" ∷ nil ∷ []) ≡ (
      table 0 ∷ chars "a" ∷ nil ∷ [],
      log_plain_noln 7 7 (dump names loop_entries 7 address (table 0 ∷ chars "a" ∷ nil ∷ [])),
    )
dump_stack-dump_example =
    dump_stack-dump names loop_entries 7 address 2 true (table 0 ∷ chars "a" ∷ nil ∷ [])
      (omega arith)

-- `print` without a limit runs out of any fuel on that table.
print_loop : print names loop_entries 7 address (λ v. none) 4 (table 0 ∷ []) ≡ none
unfolding print print_table print_entries print_type print_type_simple ◌<+>◌ log_plain_noln
print_loop = refl

print_priority :
    print names loop_entries 7 address (λ v. some 3) 4 (number 3 ∷ number 8 ∷ [])
    ≡ some (tagged 3 ∷ literal "" ∷ real 8 ∷ literal "" ∷ endl ∷ [])
unfolding print print_type print_type_simple ◌<+>◌ log_plain_noln
print_priority = refl

-- A directory with a script, a subdirectory with another one, and a text.
abbrev listing : List ℕ → Option (List (List ℕ × Bool))
listing dir =
    if path_eq dir (codes "/r")
    then some ((codes "/r/sub", true) ∷ (codes "/r/a.lua", false) ∷ (codes "/r/b.txt", false) ∷ [])
    else some ((codes "/r/sub/c.lua", false) ∷ [])

load_script_dir-scripts_example :
    load_script_dir listing 2 (codes "/r") [] ≡ found (codes "/r/a.lua" ∷ codes "/r/sub/c.lua" ∷ [])
load_script_dir-scripts_example =
    load_script_dir-scripts listing 2 (codes "/r") [] (codes "/r/a.lua" ∷ codes "/r/sub/c.lua" ∷ [])
      refl
