-- ===== src/Libraries.antt =====
-- The libraries that Lua programs use: their registration and loading in
-- src/core/lua_state_manager.cpp, with `lua_requiref` and the loading of code of
-- src/core/lua_utils.cpp. A module that an open function makes is known by its number, in the order
-- of those calls, and a C function by a number. What an open, an init or a load function does beyond
-- being called is left out; whether a script or a code string runs without an error is an argument.
pub mod Loading
pub mod Search
pub mod Objects
mod Tests
use Prim.Native.String.{String}
use petrel.Prelude.{
  ℕ, zero, suc, ◌+◌, Bool, true, false, List, [], ◌∷◌, ◌++◌, Option, none, some, length,
  if◌then◌else◌,
}
use petrel.Maps.{lookup, assign}

-- `lib_reg`; an `unload_func` without a value is a null pointer.
pub record Reg : Type 0 where
  pub name : String
  pub open_func : ℕ
  pub init_func : ℕ
  pub unload_func : Option ℕ

-- The static members, and the load and unload functions that were called, the last one first.
pub record Registered : Type 0 where
  pub libs_builtin : List Reg
  pub libs : List Reg
  pub load_calls : List ℕ
  pub unload_calls : List ℕ

abbrev pub call_load : Option ℕ → Registered → Registered
call_load none r = r
call_load (some f) r = record r { load_calls = f ∷ r.load_calls }

pub register_lib_builtin : Reg → Option ℕ → Registered → Registered
register_lib_builtin reg load_func r =
    call_load load_func (record r { libs_builtin = r.libs_builtin ++ reg ∷ [] })

pub register_lib : Reg → Option ℕ → Registered → Registered
register_lib reg load_func r = call_load load_func (record r { libs = r.libs ++ reg ∷ [] })

-- The end of the destructor.
pub unload_libs : List Reg → Registered → Registered
unload_libs [] r = record r { libs = [] }
unload_libs (reg ∷ regs) r = elim reg.unload_func [
  | none ↦ unload_libs regs r
  | some f ↦ unload_libs regs (record r { unload_calls = f ∷ r.unload_calls })
]

-- The lines of `print_registered_libs` after the first.
unfoldable pub registered_names : Registered → List (String × Bool)
registered_names r = names r.libs_builtin true ++ names r.libs false
  where
    names : List Reg → Bool → List (String × Bool)
    names [] builtin = []
    names (reg ∷ regs) builtin = (reg.name, builtin) ∷ names regs builtin

-- The values that `create_state` gives to globals.
pub data Global : Type 0 where
  module_table : ℕ → Global
  integer : ℕ → Global
  c_function : String → Global
  context : Global

-- `registry` holds the tables that are under a name in Lua's registry, `tables` counts the tables made
-- for it, `opened` has the names of the modules made so far, the last one first, `inits`
-- the calls of init functions with the table they found on the stack.
pub record LuaState : Type 0 where
  pub registry : List (String × ℕ)
  pub tables : ℕ
  pub globals : List (String × Global)
  pub opened : List String
  pub stack : List ℕ
  pub inits : List (ℕ × ℕ)
  pub ran : List String

pub new_state : LuaState
new_state = record {
  registry = [];
  tables = 0;
  globals = [];
  opened = [];
  stack = [];
  inits = [];
  ran = [];
}

abbrev pub set_global : String → Global → LuaState → LuaState
set_global name v s = record s { globals = assign name v s.globals }

-- The module of a name: it is opened if the registry has nothing under the name. (A comment of the
-- source calls the registry `_LOADED`.)
abbrev pub require_module : String → LuaState → LuaState × ℕ
require_module name s = elim (lookup name s.registry) [
  | some m ↦ (s, m)
  | none ↦ (
    record s {
      registry = assign name s.tables s.registry;
      tables = s.tables + 1;
      opened = name ∷ s.opened;
    },
    s.tables,
  )
]

-- `glb` is 1 in every call.
pub lua_requiref : String → LuaState → LuaState × ℕ
unfolding lookup assign
lua_requiref name s =
    let (t, m) = require_module name s in
    (set_global name (module_table m) (record t { stack = m ∷ t.stack }), m)

-- `luaL_newmetatable`: it makes a table for the name if the registry has none.
abbrev pub new_metatable : String → LuaState → LuaState
new_metatable name s = elim (lookup name s.registry) [
  | some m ↦ s
  | none ↦ record s { registry = assign name s.tables s.registry; tables = s.tables + 1 }
]

-- The loops of `load_libs`; the init function finds the module at the top of the stack and asks for
-- the metatable of its library's name.
pub load_each : List Reg → LuaState → LuaState
unfolding lua_requiref
load_each [] s = s
load_each (reg ∷ regs) s =
    let (t, m) = lua_requiref reg.name s in
    load_each regs (new_metatable reg.name (record t { inits = (reg.init_func, m) ∷ t.inits }))

pub load_libs : Registered → LuaState → LuaState
unfolding load_each
load_libs r s = load_each r.libs (load_each r.libs_builtin s)

-- `load_code_from_scripts` and `load_code_from_strings`: the first that fails throws (`none`).
pub load_code : (String → Bool) → List String → LuaState → Option LuaState
load_code runs [] s = some s
load_code runs (c ∷ cs) s =
    if runs c then load_code runs cs (record s { ran = c ∷ s.ran }) else none

abbrev pub require_all : List String → LuaState → LuaState
require_all [] s = s
require_all (name ∷ names) s = require_all names (lua_requiref name s).0

abbrev pub set_priorities : ℕ → List String → LuaState → LuaState
set_priorities prio [] s = s
set_priorities prio (name ∷ names) s =
    set_priorities (prio + 1) names (set_global name (integer prio) s)

-- The body of `create_state` once Lua has given a state.
pub create_state : (String → Bool) → Registered → List String → List String → Option LuaState
unfolding load_libs load_code new_state
create_state runs r scripts code =
    let s =
      require_all ("base" ∷ "debug" ∷ "math" ∷ "string" ∷ "table" ∷ "package" ∷ []) new_state in
    let t =
      set_priorities 0
        ("LOG_EMERG" ∷ "LOG_ALERT" ∷ "LOG_CRIT" ∷ "LOG_ERR" ∷ "LOG_WARN" ∷ "LOG_NOTICE" ∷ "LOG_INFO"
          ∷ "LOG_DEBUG" ∷ [])
        (set_global "print" (c_function "print") s) in
    elim (load_code runs scripts (load_libs r t)) [
      | none ↦ none
      | some u ↦ elim (load_code runs code u) [
        | none ↦ none
        | some v ↦ some (set_global "petrel_context" context v)
      ]
    ]
