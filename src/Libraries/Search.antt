-- ===== src/Libraries/Search.antt =====
-- src/lib/builtin/petrel.cpp: the search path for libraries and `load_lib`, and the directory routes
-- of a Lua program. Paths and names of files are lists of bytes. The files, and what dlopen and dlsym
-- find in them, are arguments.
pub mod First
use Prim.Native.String.{String}
use petrel.Prelude.{
  ℕ, zero, suc, ◌+◌, ◌-◌, Bool, true, false, List, [], ◌∷◌, ◌++◌, Option, none, some, ◌==◌, length,
  get_elem?, if◌then◌else◌,
}
use petrel.Router.Spec.{path_eq}
use petrel.Server.Dispatch.{Handler, lua_route, directory_route}
use petrel.Texts.{codes}
use petrel.Libraries.{Reg, Registered, register_lib}

abbrev pub usr_lib : List ℕ
usr_lib = codes "/usr/lib"

abbrev pub usr_local_lib : List ℕ
usr_local_lib = codes "/usr/local/lib"

abbrev pub is_member : List ℕ → List (List ℕ) → Bool
is_member p [] = false
is_member p (q ∷ qs) = if path_eq q p then true else is_member p qs

-- The search path that `load` makes from PETREL_LIBDIR_SUFFIX and PETREL_LIB_INSTALL_DIR.
unfoldable pub load : List ℕ → List ℕ → List (List ℕ)
load libsuffix instdir =
    let base = usr_lib ∷ usr_local_lib ∷ [] in
    let paths =
      if length libsuffix == 0
      then base
      else base ++ (usr_lib ++ libsuffix) ∷ (usr_local_lib ++ libsuffix) ∷ [] in
    if is_member instdir paths then paths else paths ++ instdir ∷ []

-- The names joined with colons.
unfoldable pub lib_search_path : List (List ℕ) → List ℕ
lib_search_path [] = []
lib_search_path (p ∷ []) = p
lib_search_path (p ∷ q ∷ ps) = p ++ 58 ∷ lib_search_path (q ∷ ps)

unfoldable pub add_lib_search_path : List ℕ → List (List ℕ) → List (List ℕ)
add_lib_search_path p ps = ps ++ p ∷ []

abbrev pub add_route : List ℕ → String → Handler
add_route path func = lua_route path func

-- `if (path[path.size() - 1] != '/') path += '/';` reads out of bounds if the text is empty.
abbrev pub slashed : List ℕ → Option (List ℕ)
slashed [] = none
slashed (c ∷ cs) = elim (get_elem? (c ∷ cs) (length cs)) [
  | none ↦ none
  | some d ↦ some (if d == 47 then c ∷ cs else (c ∷ cs) ++ 47 ∷ [])
]

unfoldable pub add_directory_route : List ℕ → List ℕ → Option Handler
add_directory_route path dir = elim (slashed path) [
  | none ↦ none
  | some p ↦ elim (slashed dir) [ none ↦ none | some d ↦ some (directory_route p d) ]
]

-- What dlsym finds in a library; without a value where dlerror reports an error.
pub record Symbols : Type 0 where
  pub name_func : Option String
  pub open_func : Option ℕ
  pub init_func : Option ℕ
  pub load_func : Option ℕ
  pub unload_func : Option ℕ

-- What a file is: nothing, a file that dlopen refuses, or a library.
pub data File : Type 0 where
  absent refused : File
  library : Symbols → File

pub data Failure : Type 0 where
  not_opened no_symbol not_found : List ℕ → Failure

-- `closed` are the libraries that dlclose was called for.
pub record Loading : Type 0 where
  pub registered : Registered
  pub errors : List Failure
  pub closed : List (List ℕ)

abbrev pub fail_symbol : List ℕ → Loading → Loading
fail_symbol file s = record s { errors = no_symbol file ∷ s.errors; closed = file ∷ s.closed }

-- What is done with a library: `true` ends the loop.
abbrev pub take_library : List ℕ → Symbols → Loading → Loading × Bool
take_library file y s = elim y.name_func [
  | none ↦ (fail_symbol file s, false)
  | some name ↦ elim y.open_func [
    | none ↦ (fail_symbol file s, true)
    | some o ↦ elim y.init_func [
      | none ↦ (fail_symbol file s, false)
      | some i ↦ elim y.load_func [
        | none ↦ (fail_symbol file s, false)
        | some l ↦ elim y.unload_func [
          | none ↦ (fail_symbol file s, false)
          | some u ↦ (
            record s {
              registered =
                  register_lib
                    (record { name = name; open_func = o; init_func = i; unload_func = some u })
                    (some l) s.registered;
            },
            true,
          )
        ]
      ]
    ]
  ]
]

abbrev pub take_file : List ℕ → File → Loading → Loading × Bool
take_file file absent s = (s, false)
take_file file refused s = (record s { errors = not_opened file ∷ s.errors }, false)
take_file file (library y) s = take_library file y s

module _ (files : List ℕ → File) (prefix suffix : List ℕ) where
  abbrev pub file_name : List ℕ → List ℕ → List ℕ
  file_name path lib = path ++ 47 ∷ (prefix ++ lib ++ suffix)

  pub load_lib : List (List ℕ) → List ℕ → Loading → Loading
  load_lib [] lib s = record s { errors = not_found lib ∷ s.errors }
  load_lib (path ∷ paths) lib s =
      let (t, done) = take_file (file_name path lib) (files (file_name path lib)) s in
      let rest = load_lib paths lib t in if done then t else rest
