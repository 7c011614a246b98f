-- ===== src/FileCache/Scan.antt =====
-- `scan_directory`, `add_directory` and the refreshing thread of src/core/file_cache.cpp. The tree that
-- a directory iteration walks is an argument.
pub mod Refresh
use text.Mathlib.Text.{◌==◌ as str_eq}
use Prim.Native.String.{String}
use petrel.Prelude.{◌≡◌, Bool, true, false, List, [], ◌∷◌, Option, none, some, if◌then◌else◌}
use petrel.FileCache.{
  Stat, missing, special, regular, File, Files, file, differs, Cache, add_file, remove_file,
  get_file_main,
}

-- What an iteration over a directory finds.
mutual
  pub data Entry : Type 0 where
    leaf : String → Entry
    directory : String → Entries → Entry

  pub data Entries : Type 0 where
    end : Entries
    entry : Entry → Entries → Entries

-- `if (nullptr == f) add_file(…)`
abbrev pub add_new : (String → Stat) → String → Option File → Cache → Cache
add_new disk path (some f) c = c
add_new disk path none c = (add_file disk path c).0

mutual
  unfolding get_file_main add_file

  pub scan_entry : (String → Stat) → Entry → Cache → Cache
  scan_entry disk (leaf path) c = add_new disk path (get_file_main path c) c
  scan_entry disk (directory path es) c = scan_entries disk es c

  pub scan_entries : (String → Stat) → Entries → Cache → Cache
  scan_entries disk end c = c
  scan_entries disk (entry e es) c = scan_entries disk es (scan_entry disk e c)

-- `scan_directory` of a path for which `tree` has the entries, if it is a directory.
abbrev pub scan_tree : (String → Stat) → Option Entries → Cache → Cache × Bool
scan_tree disk none c = (c, false)
scan_tree disk (some es) c = (scan_entries disk es c, true)

pub scan_directory : (String → Stat) → (String → Option Entries) → String → Cache → Cache × Bool
unfolding scan_entries
scan_directory disk tree name c = scan_tree disk (tree name) c

abbrev pub insert_name : String → List String → List String
insert_name name [] = name ∷ []
insert_name name (d ∷ ds) = if str_eq d name then d ∷ ds else d ∷ insert_name name ds

abbrev pub insert_directory : String → Cache × Bool → Cache × Bool
insert_directory name (c, true) = (record c { directories = insert_name name c.directories }, true)
insert_directory name (c, false) = (c, false)

pub add_directory : (String → Stat) → (String → Option Entries) → String → Cache → Cache × Bool
unfolding scan_directory
add_directory disk tree name c = insert_directory name (scan_directory disk tree name c)

-- The loops of a round of the refreshing thread.
pub scan_all : (String → Stat) → (String → Option Entries) → List String → Cache → Cache
unfolding scan_directory
scan_all disk tree [] c = c
scan_all disk tree (d ∷ ds) c = scan_all disk tree ds (scan_directory disk tree d c).0

-- The files of the map that changed, and those that no longer exist.
abbrev pub changed : (String → Stat) → Files → List String
changed disk [] = []
changed disk ((name, f) ∷ fs) = elim (disk name) [
  | missing ↦ changed disk fs
  | _ ↦ if differs f (file disk name false) then name ∷ changed disk fs else changed disk fs
]

abbrev pub gone : (String → Stat) → Files → List String
gone disk [] = []
gone disk ((name, f) ∷ fs) = elim (disk name) [ missing ↦ name ∷ gone disk fs | _ ↦ gone disk fs ]

pub add_all : (String → Stat) → List String → Cache → Cache
unfolding add_file
add_all disk [] c = c
add_all disk (name ∷ names) c = add_all disk names (add_file disk name c).0

pub remove_all : List String → Cache → Cache
unfolding remove_file
remove_all [] c = c
remove_all (name ∷ names) c = remove_all names (remove_file name c)

abbrev pub update_files : (String → Stat) → Cache → Cache
update_files disk c = remove_all (gone disk c.file_map) (add_all disk (changed disk c.file_map) c)

pub refresh : (String → Stat) → (String → Option Entries) → Cache → Cache
unfolding scan_all add_all remove_all
refresh disk tree c = update_files disk (scan_all disk tree c.directories c)
