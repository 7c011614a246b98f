-- ===== src/Libraries/Tests.antt =====
-- Two libraries that are loaded, and a search for a third.
use petrel.Prelude.{ℕ, ◌+◌, ◌≡◌, List, [], ◌∷◌, none, some, arith, if◌then◌else◌}
use Prim.Native.String.{String}
use petrel.Router.Spec.{path_eq}
use petrel.Libraries.{Reg, Registered}
use petrel.Libraries.Search.{
  File, absent, library, Loading, load_lib, lib_search_path, usr_lib, usr_local_lib,
}
use petrel.Libraries.Search.First.{
  load_lib-first_complete, register_found, first_complete, candidates, split_colons,
  split_colons-lib_search_path,
}

abbrev reg : String → ℕ → Reg
reg name f = record { name = name; open_func = f; init_func = f + 1; unload_func = none }

abbrev libraries : Registered
libraries = record {
  libs_builtin = reg "metric" 10 ∷ reg "hash" 20 ∷ [];
  libs = reg "metric" 30 ∷ [];
  load_calls = [];
  unload_calls = [];
}

-- A library at `/b/x` that has no open function, and a complete one at `/c/x`.
abbrev broken : File
broken = library record {
  name_func = some "x";
  open_func = none;
  init_func = some 1;
  load_func = some 2;
  unload_func = some 3;
}

abbrev complete_library : File
complete_library = library record {
  name_func = some "x";
  open_func = some 4;
  init_func = some 5;
  load_func = some 6;
  unload_func = some 7;
}

abbrev files : List ℕ → File
files name =
    if path_eq name (98 ∷ 47 ∷ 120 ∷ [])
    then broken
    else if path_eq name (99 ∷ 47 ∷ 120 ∷ [])
    then complete_library
    else absent

abbrev loading : Loading
loading = record { registered = libraries; errors = []; closed = [] }

load_lib-first_complete_example :
    (load_lib files [] [] ((97 ∷ []) ∷ (99 ∷ []) ∷ (98 ∷ []) ∷ []) (120 ∷ []) loading).registered
    ≡ register_found
        (first_complete
          (candidates files [] [] ((97 ∷ []) ∷ (99 ∷ []) ∷ (98 ∷ []) ∷ []) (120 ∷ [])))
        libraries
load_lib-first_complete_example =
    load_lib-first_complete files [] [] ((97 ∷ []) ∷ (99 ∷ []) ∷ (98 ∷ []) ∷ []) (120 ∷ []) loading

-- The broken library ends the search before the complete one is reached.
load_lib_stops :
    (load_lib files [] [] ((98 ∷ []) ∷ (99 ∷ []) ∷ []) (120 ∷ []) loading).registered ≡ libraries
load_lib_stops = load_lib-first_complete files [] [] ((98 ∷ []) ∷ (99 ∷ []) ∷ []) (120 ∷ []) loading

-- The default search path is read back.
read_search_path :
    split_colons [] (lib_search_path (usr_lib ∷ usr_local_lib ∷ [])) ≡ usr_lib ∷ usr_local_lib ∷ []
read_search_path =
    split_colons-lib_search_path usr_lib (usr_local_lib ∷ []) (ground arith) (ground arith)
