-- ===== src/Libraries/Objects.antt =====
-- The functions that the macros of src/lib/library.h and src/lib/library_builtin.h generate for a
-- library class: its tables of functions and methods, the objects that a Lua program makes, and the
-- call of a method. An object is known by its number, in the order of `new`, and its address is a
-- light userdata; a null pointer has no number. A C function is a number.
pub mod Calls
mod Tests
use Prim.Native.String.{String}
use petrel.Prelude.{ℕ, zero, suc, ◌+◌, List, [], ◌∷◌, ◌++◌, Option, none, some, drop, get_elem?}
use petrel.Maps.{lookup, assign}

pub Fields : Type 0
Fields = List (String × ℕ)

-- A value of Lua; a table has a value at index 1 and functions as fields.
pub data Value : Type 0 where
  nil : Value
  light_userdata : Option ℕ → Value
  table : Value → List (String × ℕ) → Value
  plain : ℕ → Value

-- `library_functions` and `library_methods` of a class; a name may be a null pointer.
pub record Library : Type 0 where
  pub functions : List (String × ℕ)
  pub methods : List (Option String × ℕ)

pub new_library : Library
new_library = record { functions = []; methods = [] }

abbrev pub lib_add_function : String → Option ℕ → Library → Library
lib_add_function name none lib = lib
lib_add_function name (some f) lib = record lib { functions = lib.functions ++ (name, f) ∷ [] }

abbrev pub lib_add_method : Option String → Option ℕ → Library → Library
lib_add_method name none lib = lib
lib_add_method name (some f) lib = record lib { methods = lib.methods ++ (name, f) ∷ [] }

-- `lua_setfield` for each function.
unfoldable pub set_functions : List (String × ℕ) → List (String × ℕ) → List (String × ℕ)
unfolding assign
set_functions [] fields = fields
set_functions ((name, f) ∷ fs) fields = set_functions fs (assign name f fields)

-- `lib_open`: what it leaves at the top of the stack, above its argument.
unfoldable pub lib_open : Library → Value → Value
unfolding set_functions
lib_open lib argument = elim lib.functions [
  | [] ↦ argument
  | f ∷ fs ↦ table nil (set_functions (f ∷ fs) [])
]

-- The metatable of a class and of its table of functions.
pub record Metatables : Type 0 where
  pub index : Value
  pub metatable : Value
  pub call : ℕ

-- `lib_init` with the table of functions on the stack and `lib_new` as the function `new`.
abbrev pub lib_init : ℕ → Value → Metatables
lib_init new funcs = record { index = funcs; metatable = funcs; call = new }

-- The loop over `library_methods`.
unfoldable pub set_methods : List (Option String × ℕ) → List (String × ℕ) → List (String × ℕ)
unfolding assign
set_methods [] fields = fields
set_methods ((none, f) ∷ fs) fields = set_methods fs fields
set_methods ((some name, f) ∷ fs) fields = set_methods fs (assign name f fields)

-- `ctx->p_objects`, and how many objects were made.
pub record Context : Type 0 where
  pub objects : List ℕ
  pub created : ℕ

-- `lib_new` on a stack, the bottom first; the stack after it, whose top is the result.
unfoldable pub lib_new : Library → List Value → Context → Context × List Value
unfolding set_methods
lib_new lib stack ctx =
    let userdata = light_userdata (some ctx.created) in
    let newtab = table userdata (set_methods lib.methods []) in
    (
      record { objects = ctx.objects ++ ctx.created ∷ []; created = ctx.created + 1 },
      drop 2 (stack ++ userdata ∷ newtab ∷ []),
    )

pub data Error : Type 0 where
  cast_failed no_this invalid_call : Error

-- What a method wrapper does: it calls the method of an object with the rest of the stack, or raises
-- an error in the Lua program.
pub data Call : Type 0 where
  invoke : ℕ → List Value → Call
  raises : Error → Call

abbrev pub this_call : Value → List Value → Call
this_call (light_userdata (some obj)) args = invoke obj args
this_call (light_userdata none) args = raises cast_failed
this_call v args = raises no_this

-- `FUNC_method` on a stack.
unfoldable pub method : List Value → Call
method (table this fields ∷ args) = this_call this args
method stack = raises invalid_call
