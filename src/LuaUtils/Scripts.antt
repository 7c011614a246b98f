-- ===== src/LuaUtils/Scripts.antt =====
-- `load_script_dir` and `traceback` of src/core/lua_utils.cpp. What an iteration over a directory
-- finds is an argument: the paths, each with whether it is a directory, or no value for an error of
-- the file system. Directories are entered on fuel, since links can make a cycle.
use petrel.Prelude.{
  ℕ, zero, suc, ◌-◌, ◌≡◌, refl, sym, ap, ◌∙◌, Bool, true, false, List, [], ◌∷◌, ◌++◌, Option, none,
  some, ltb, length, drop, if◌then◌else◌, arith, Option-cases, inl, inr,
}
use mathlib.Core.Option.{some-injective}
use mathlib.Core.Option
use mathlib.Core.List.{append_assoc, append-nil}
use petrel.Router.Spec.{path_eq}
use petrel.Texts.{codes}

pub data Search : Type 0 where
  out_of_fuel throws : Search
  found : List (List ℕ) → Search

-- `s.substr(s.size() - 4) == ".lua"`; none where `substr` throws.
abbrev pub is_lua : List ℕ → Option Bool
is_lua s = if ltb (length s) 4 then none else some (path_eq (drop (length s - 4) s) (codes ".lua"))

abbrev pub if_script : {A : Type 0} → Option Bool → Option A → Option A → Option A
if_script none yes_it no_it = none
if_script (some true) yes_it no_it = yes_it
if_script (some false) yes_it no_it = no_it

-- The loop over the entries: the scripts and the subdirectories found so far.
unfoldable pub read_entries :
    List (List ℕ × Bool) → List (List ℕ) → List (List ℕ) → Option (List (List ℕ) × List (List ℕ))
read_entries [] vec subdirs = some (vec, subdirs)
read_entries ((s, true) ∷ es) vec subdirs = read_entries es vec (subdirs ++ s ∷ [])
read_entries ((s, false) ∷ es) vec subdirs =
    if_script (is_lua s) (read_entries es (vec ++ s ∷ []) subdirs) (read_entries es vec subdirs)

abbrev pub load_each : (List ℕ → List (List ℕ) → Search) → List (List ℕ) → List (List ℕ) → Search
load_each load [] vec = found vec
load_each load (d ∷ ds) vec = elim (load d vec) [
  | out_of_fuel ↦ out_of_fuel
  | throws ↦ throws
  | found vec' ↦ load_each load ds vec'
]

module _ (listing : List ℕ → Option (List (List ℕ × Bool))) where
  abbrev pub enter :
      (List ℕ → List (List ℕ) → Search) → Option (List (List ℕ × Bool)) → List (List ℕ) → Search
  enter load none vec = throws
  enter load (some es) vec = elim (read_entries es vec []) [
    | none ↦ throws
    | some (vec', subdirs) ↦ load_each load subdirs vec'
  ]

  unfoldable pub load_script_dir : ℕ → List ℕ → List (List ℕ) → Search
  unfolding read_entries
  load_script_dir fuel [] vec = found vec
  load_script_dir zero (c ∷ dir) vec = out_of_fuel
  load_script_dir (suc fuel) (c ∷ dir) vec = enter (load_script_dir fuel) (listing (c ∷ dir)) vec

-- What `traceback` leaves at the top of the stack, for its argument: a message with a traceback, what
-- `__tostring` of a value gives, a text, or the argument itself.
pub data Argument : Type 0 where
  message : List ℕ → Argument  -- a string or a number
  nothing : Argument  -- nil or no argument
  value : Option (List ℕ) → Argument  -- with what `luaL_callmeta` of `__tostring` gives

pub data Top : Type 0 where
  traced : List ℕ → Top
  given : Argument → Top
  text : List ℕ → Top

unfoldable pub traceback : Argument → Top
traceback (message m) = traced m
traceback nothing = given nothing
traceback (value (some t)) = text t
traceback (value none) = text (codes "(no error message)")

-- The scripts of a directory, those of its own files first and then those of each subdirectory, by
-- recursion on the depth; none where a listing or the test of a name fails or the tree is deeper.
abbrev pub own_scripts : List (List ℕ × Bool) → Option (List (List ℕ))
own_scripts [] = some []
own_scripts ((s, true) ∷ es) = own_scripts es
own_scripts ((s, false) ∷ es) =
    if_script (is_lua s) (Option.map (λ rest. s ∷ rest) (own_scripts es)) (own_scripts es)

abbrev pub subdirs_of : List (List ℕ × Bool) → List (List ℕ)
subdirs_of [] = []
subdirs_of ((s, true) ∷ es) = s ∷ subdirs_of es
subdirs_of ((s, false) ∷ es) = subdirs_of es

abbrev read_with :
    Option (List (List ℕ)) → List (List ℕ) → List (List ℕ) → Option (List (List ℕ) × List (List ℕ))
read_with none vec subdirs = none
read_with (some scripts) vec subdirs = some (vec ++ scripts, subdirs)

-- The loop finds the scripts and the subdirectories in the order of the entries.
pub read_entries_lem :
    (es : List (List ℕ × Bool)) (vec subdirs : List (List ℕ))
    → read_entries es vec subdirs ≡ read_with (own_scripts es) vec (subdirs ++ subdirs_of es)
unfolding read_entries
read_entries_lem [] vec subdirs = rw (append-nil vec, append-nil subdirs)
read_entries_lem ((s, true) ∷ es) vec subdirs =
    read_entries_lem es vec (subdirs ++ s ∷ [])
    ∙ ap (read_with (own_scripts es) vec) (append_assoc subdirs (s ∷ []) (subdirs_of es))
read_entries_lem ((s, false) ∷ es) vec subdirs =
    ap (λ a. if_script (is_lua s) a (read_entries es vec subdirs))
      (read_entries_lem es (vec ++ s ∷ []) subdirs)
    ∙ ap (if_script (is_lua s) (read_with (own_scripts es) (vec ++ s ∷ []) dirs))
        (read_entries_lem es vec subdirs)
    ∙ by_test (is_lua s) (own_scripts es)
  where
    dirs : List (List ℕ)
    dirs = subdirs ++ subdirs_of es

    by_test :
        (o : Option Bool) (w : Option (List (List ℕ)))
        → if_script o (read_with w (vec ++ s ∷ []) dirs) (read_with w vec dirs)
          ≡ read_with (if_script o (Option.map (λ rest. s ∷ rest) w) w) vec dirs
    by_test none w = refl
    by_test (some true) none = refl
    by_test (some false) none = refl
    by_test (some true) (some rest) = ap (λ v. some (v, dirs)) (append_assoc vec (s ∷ []) rest)
    by_test (some false) (some rest) = refl

abbrev pub all_of : (List ℕ → Option (List (List ℕ))) → List (List ℕ) → Option (List (List ℕ))
all_of f [] = some []
all_of f (d ∷ ds) = elim (f d) [
  | none ↦ none
  | some own ↦ elim (all_of f ds) [ none ↦ none | some rest ↦ some (own ++ rest) ]
]

load_each-all_of :
    (f : List ℕ → Option (List (List ℕ))) (load : List ℕ → List (List ℕ) → Search)
    → ((d : List ℕ) (vec ws : List (List ℕ)) → f d ≡ some ws → load d vec ≡ found (vec ++ ws))
    → (ds vec ws : List (List ℕ)) → all_of f ds ≡ some ws
    → load_each load ds vec ≡ found (vec ++ ws)
load_each-all_of f load h [] vec ws e =
    ap found (sym (append-nil vec) ∙ ap (λ x. vec ++ x) (some-injective [] ws e))
load_each-all_of f load h (d ∷ ds) vec ws e = elim (Option-cases (f d)) [
  | inl fails ↦ absurd (ground (arith, e, fails))
  | inr (own, p) ↦ elim (Option-cases (all_of f ds)) [
    | inl fails ↦ absurd (ground (arith, e, p, fails))
    | inr (rest, q) ↦
        let split : own ++ rest ≡ ws = ground (arith, e, p, q) in
        rw (load_each, h d vec own p)
          (load_each-all_of f load h ds (vec ++ own) rest q
            ∙ ap found (append_assoc vec own rest ∙ ap (λ x. vec ++ x) split))
  ]
]

module _ (listing : List ℕ → Option (List (List ℕ × Bool))) where
  abbrev pub scripts_in :
      (List ℕ → Option (List (List ℕ))) → Option (List (List ℕ × Bool)) → Option (List (List ℕ))
  scripts_in below none = none
  scripts_in below (some es) = elim (own_scripts es) [
    | none ↦ none
    | some own ↦ elim (all_of below (subdirs_of es)) [
      | none ↦ none
      | some rest ↦ some (own ++ rest)
    ]
  ]

  abbrev pub scripts : ℕ → List ℕ → Option (List (List ℕ))
  scripts depth [] = some []
  scripts zero (c ∷ dir) = none
  scripts (suc depth) (c ∷ dir) = scripts_in (scripts depth) (listing (c ∷ dir))

  enter-scripts_in :
      (f : List ℕ → Option (List (List ℕ))) (load : List ℕ → List (List ℕ) → Search)
      → ((d : List ℕ) (vec ws : List (List ℕ)) → f d ≡ some ws → load d vec ≡ found (vec ++ ws))
      → (o : Option (List (List ℕ × Bool))) (vec ws : List (List ℕ)) → scripts_in f o ≡ some ws
      → enter listing load o vec ≡ found (vec ++ ws)
  enter-scripts_in f load below none vec ws h = absurd (ground (arith, h))
  enter-scripts_in f load below (some es) vec ws h = elim (Option-cases (own_scripts es)) [
    | inl fails ↦ absurd (ground (arith, h, fails))
    | inr (own, p) ↦ elim (Option-cases (all_of f (subdirs_of es))) [
      | inl fails ↦ absurd (ground (arith, h, p, fails))
      | inr (rest, q) ↦
          let split : own ++ rest ≡ ws = ground (arith, h, p, q) in
          let reads = read_entries_lem es vec [] ∙ ap (λ o. read_with o vec (subdirs_of es)) p in
          rw (enter, reads)
            (load_each-all_of f load below (subdirs_of es) (vec ++ own) rest q
              ∙ ap found (append_assoc vec own rest ∙ ap (λ x. vec ++ x) split))
    ]
  ]

  -- Where a directory's tree is no deeper than the fuel and can be read, `load_script_dir` returns and
  -- adds its scripts behind what is there: its own files in the order of the listing, then those of
  -- each subdirectory.
  pub load_script_dir-scripts :
      (fuel : ℕ) (dir : List ℕ) (vec ws : List (List ℕ))
      → scripts fuel dir ≡ some ws
      → load_script_dir listing fuel dir vec ≡ found (vec ++ ws)
  unfolding load_script_dir
  load_script_dir-scripts fuel [] vec ws e =
      ap found (sym (append-nil vec) ∙ ap (λ x. vec ++ x) (some-injective [] ws e))
  load_script_dir-scripts zero (c ∷ dir) vec ws e = absurd (ground (arith, e))
  load_script_dir-scripts (suc fuel) (c ∷ dir) vec ws e =
      enter-scripts_in (scripts fuel) (load_script_dir listing fuel) (load_script_dir-scripts fuel)
        (listing (c ∷ dir)) vec ws e
