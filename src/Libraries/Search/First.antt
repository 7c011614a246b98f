-- ===== src/Libraries/Search/First.antt =====
-- Which library `load_lib` registers, and the text of the search path.
use mathlib.Core.List.{append_assoc, append-nil}
use Prim.Native.String.{String}
use petrel.Prelude.{
  ℕ, ◌≡◌, ◌≢◌, refl, Bool, true, false, List, [], ◌∷◌, ◌++◌, Option, none, some, ◌==◌,
  if◌then◌else◌, arith, ap, sym, ◌∙◌,
}
use petrel.Libraries.{Reg, Registered, register_lib}
use petrel.Libraries.Search.{
  Symbols, File, absent, refused, library, Loading, take_library, take_file, file_name, load_lib,
  lib_search_path,
}

abbrev pub all_symbols :
    Option String → Option ℕ → Option ℕ → Option ℕ → Option ℕ → Option (Reg × ℕ)
all_symbols (some name) (some o) (some i) (some l) (some u) =
    some (record { name = name; open_func = o; init_func = i; unload_func = some u }, l)
all_symbols _ _ _ _ _ = none

-- The registration that a complete library asks for.
abbrev pub complete : File → Option (Reg × ℕ)
complete (library y) = all_symbols y.name_func y.open_func y.init_func y.load_func y.unload_func
complete f = none

abbrev pub name_only : Option String → Option ℕ → Bool
name_only (some name) none = true
name_only _ _ = false

-- A library with a name and without an open function.
abbrev pub lacks_open : File → Bool
lacks_open (library y) = name_only y.name_func y.open_func
lacks_open f = false

-- The first file of the search path that is a complete library, up to the first one that has a name
-- but no open function.
abbrev pub first_complete : List File → Option (Reg × ℕ)
first_complete [] = none
first_complete (f ∷ fs) = elim (complete f) [
  | some r ↦ some r
  | none ↦ if lacks_open f then none else first_complete fs
]

abbrev pub register_found : Option (Reg × ℕ) → Registered → Registered
register_found none r = r
register_found (some (reg, l)) r = register_lib reg (some l) r

-- What the loop does with one file, given what the rest of the path has.
take_file-found :
    (file : List ℕ) (f : File) (s : Loading) (rest : Option (Reg × ℕ))
    → (if (take_file file f s).1
        then (take_file file f s).0.registered
        else register_found rest (take_file file f s).0.registered)
      ≡ register_found
          (elim (complete f) [ some r ↦ some r | none ↦ if lacks_open f then none else rest ])
          s.registered
take_file-found file absent s rest = refl
take_file-found file refused s rest = refl
take_file-found file (library y) s rest =
    by_symbols y.name_func y.open_func y.init_func y.load_func y.unload_func
  where
    symbols : Option String → Option ℕ → Option ℕ → Option ℕ → Option ℕ → Symbols
    symbols n o i l u = record {
      name_func = n;
      open_func = o;
      init_func = i;
      load_func = l;
      unload_func = u;
    }

    by_symbols :
        (n : Option String) (o i l u : Option ℕ)
        → (if (take_library file (symbols n o i l u) s).1
            then (take_library file (symbols n o i l u) s).0.registered
            else register_found rest (take_library file (symbols n o i l u) s).0.registered)
          ≡ register_found
              (elim (all_symbols n o i l u) [
                | some r ↦ some r
                | none ↦ if name_only n o then none else rest
              ])
              s.registered
    by_symbols none o i l u = refl
    by_symbols (some n) none i l u = refl
    by_symbols (some n) (some o) none l u = refl
    by_symbols (some n) (some o) (some i) none u = refl
    by_symbols (some n) (some o) (some i) (some l) none = refl
    by_symbols (some n) (some o) (some i) (some l) (some u) = refl

module _ (files : List ℕ → File) (prefix suffix : List ℕ) where
  abbrev pub candidates : List (List ℕ) → List ℕ → List File
  candidates [] lib = []
  candidates (path ∷ paths) lib =
      files (file_name files prefix suffix path lib) ∷ candidates paths lib

  -- `load_lib` registers the first complete library of the search path and no other, except that a
  -- library that has a name but no open function ends the search.
  pub load_lib-first_complete :
      (paths : List (List ℕ)) (lib : List ℕ) (s : Loading)
      → (load_lib files prefix suffix paths lib s).registered
        ≡ register_found (first_complete (candidates paths lib)) s.registered
  unfolding load_lib
  load_lib-first_complete [] lib s = refl
  load_lib-first_complete (path ∷ paths) lib s =
      let file = file_name files prefix suffix path lib in
      let t = (take_file file (files file) s).0 in
      let rest = load_lib-first_complete paths lib t in
      ground
        (arith, rest, take_file-found file (files file) s (first_complete (candidates paths lib)))

-- A reader of the text of the search path: `at` is the name that is being read.
abbrev pub split_colons : List ℕ → List ℕ → List (List ℕ)
split_colons at [] = at ∷ []
split_colons at (c ∷ cs) =
    let rest = split_colons [] cs in
    let more = split_colons (at ++ c ∷ []) cs in if c == 58 then at ∷ rest else more

abbrev pub NoColon : List ℕ → Type 0
NoColon [] = Unit
NoColon (c ∷ cs) = (c ≢ 58) × NoColon cs

abbrev pub Plain : List (List ℕ) → Type 0
Plain [] = Unit
Plain (p ∷ ps) = NoColon p × Plain ps

split_colons-append :
    (at p rest : List ℕ) → NoColon p → split_colons at (p ++ rest) ≡ split_colons (at ++ p) rest
split_colons-append at [] rest h = ap (λ a. split_colons a rest) (sym (append-nil at))
split_colons-append at (c ∷ p) rest h =
    ground (arith, h.0, split_colons-append (at ++ c ∷ []) p rest h.1, append_assoc at (c ∷ []) p)

-- Names without a colon can be read back from the text that `lib_search_path` gives.
pub split_colons-lib_search_path :
    (p : List ℕ) (ps : List (List ℕ))
    → NoColon p
    → Plain ps
    → split_colons [] (lib_search_path (p ∷ ps)) ≡ p ∷ ps
unfolding lib_search_path
split_colons-lib_search_path p [] h k =
    ap (split_colons []) (sym (append-nil p)) ∙ split_colons-append [] p [] h
split_colons-lib_search_path p (q ∷ ps) h k =
    split_colons-append [] p (58 ∷ lib_search_path (q ∷ ps)) h
    ∙ ap (λ names. p ∷ names) (split_colons-lib_search_path q ps k.0 k.1)
