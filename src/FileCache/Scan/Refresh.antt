-- ===== src/FileCache/Scan/Refresh.antt =====
-- What a round of the refreshing thread leaves in the main map.
use text.Mathlib.Text.{◌==◌ as str_eq}
use text.Mathlib.TextEquality.{eq_iff}
use Prim.Native.String.{String}
use petrel.Prelude.{
  ℕ, ◌≡◌, ◌≢◌, refl, ap, ◌∙◌, ◌⊎◌, inl, inr, Bool, true, false, List, [], ◌∷◌, ◌++◌, Option, none,
  some, if◌then◌else◌, arith, ◌&&◌, ◌||◌, or_else, Option-cases,
}
use petrel.Maps.{lookup, lookup-assign, lookup-erase}
use petrel.FileCache.{
  Stat, missing, regular, File, Files, file, differs, Cache, add_file, remove_file,
  remove_file_around, get_file_main, post_file, set_file, post_removal, erase_file,
}
use petrel.FileCache.Scan.{
  Entry, leaf, directory, Entries, end, entry, scan_entry, scan_entries, scan_tree, scan_directory,
  scan_all, changed, gone, add_all, remove_all, update_files, refresh,
}

abbrev pub contains : String → List String → Bool
contains n [] = false
contains n (m ∷ ms) = str_eq m n || contains n ms

contains-append :
    (n : String) (ms ks : List String) → contains n (ms ++ ks) ≡ (contains n ms || contains n ks)
contains-append n [] ks = refl
contains-append n (m ∷ ms) ks = ground (arith, contains-append n ms ks)

add_file-lookup :
    (disk : String → Stat) (name n : String) (c : Cache)
    → lookup n (add_file disk name c).0.file_map ≡ (
        if str_eq name n && (file disk n true).good
        then some (file disk n true)
        else lookup n c.file_map)
unfolding add_file post_file set_file
add_file-lookup disk name n c =
    ground (arith, eq_iff name n, lookup-assign name n (file disk name true) c.file_map)

add_all-lookup :
    (disk : String → Stat) (names : List String) (n : String) (c : Cache)
    → lookup n (add_all disk names c).file_map ≡ (
        if contains n names && (file disk n true).good
        then some (file disk n true)
        else lookup n c.file_map)
unfolding add_all
add_all-lookup disk [] n c = refl
add_all-lookup disk (name ∷ names) n c =
    ground
      (arith, add_all-lookup disk names n (add_file disk name c).0, add_file-lookup disk name n c)

remove_all-lookup :
    (names : List String) (n : String) (c : Cache)
    → lookup n (remove_all names c).file_map
      ≡ (if contains n names then none else lookup n c.file_map)
unfolding remove_all remove_file remove_file_around post_removal erase_file
remove_all-lookup [] n c = refl
remove_all-lookup (name ∷ names) n c =
    ground (arith, remove_all-lookup names n (remove_file name c), lookup-erase name n c.file_map)

changed-lookup :
    (disk : String → Stat) (fs : Files) (n : String) (f : File)
    → lookup n fs ≡ some f
    → disk n ≢ missing
    → (differs f (file disk n false) ≡ false) ⊎ (contains n (changed disk fs) ≡ true)
unfolding lookup
changed-lookup disk [] n f h k = absurd (ground arith)
changed-lookup disk ((m, g) ∷ fs) n f h k = ground (arith, eq_iff m n, changed-lookup disk fs n f)

gone-lookup :
    (disk : String → Stat) (fs : Files) (n : String)
    → disk n ≡ missing
    → (lookup n fs ≡ none) ⊎ (contains n (gone disk fs) ≡ true)
unfolding lookup
gone-lookup disk [] n h = inl refl
gone-lookup disk ((m, g) ∷ fs) n h = ground (arith, eq_iff m n, gone-lookup disk fs n h)

gone-missing :
    (disk : String → Stat) (fs : Files) (n : String)
    → contains n (gone disk fs) ≡ true
    → disk n ≡ missing
gone-missing disk [] n h = cc
gone-missing disk ((m, g) ∷ fs) n h = ground (arith, eq_iff m n, gone-missing disk fs n)

-- The paths below a directory that are not directories.
mutual
  pub leaves_entry : Entry → List String
  leaves_entry (leaf path) = path ∷ []
  leaves_entry (directory path es) = leaves es

  pub leaves : Entries → List String
  leaves end = []
  leaves (entry e es) = leaves_entry e ++ leaves es

-- What a scan of some paths leaves under a name.
abbrev pub scanned : (String → Stat) → String → List String → Option File → Option File
scanned disk n paths there =
    or_else there
      (if contains n paths && (file disk n true).good then some (file disk n true) else none)

scanned-append :
    (disk : String → Stat) (n : String) (ps qs : List String) (there : Option File)
    → scanned disk n qs (scanned disk n ps there) ≡ scanned disk n (ps ++ qs) there
scanned-append disk n ps qs none = ground (arith, contains-append n ps qs)
scanned-append disk n ps qs (some f) = refl

mutual
  unfolding scan_entry scan_entries leaves_entry leaves get_file_main

  scan_entry-lookup :
      (disk : String → Stat) (n : String) (e : Entry) (c : Cache)
      → lookup n (scan_entry disk e c).file_map
        ≡ scanned disk n (leaves_entry e) (lookup n c.file_map)
  scan_entry-lookup disk n (leaf path) c = elim (Option-cases (lookup path c.file_map)) [
    | inl absent ↦
        ground
          (arith, eq_iff path n, add_file-lookup disk path n c, Option-cases (lookup n c.file_map))
    | inr (f, there) ↦ ground (arith, eq_iff path n, Option-cases (lookup n c.file_map))
  ]
  scan_entry-lookup disk n (directory path es) c = scan_entries-lookup disk n es c

  scan_entries-lookup :
      (disk : String → Stat) (n : String) (es : Entries) (c : Cache)
      → lookup n (scan_entries disk es c).file_map
        ≡ scanned disk n (leaves es) (lookup n c.file_map)
  scan_entries-lookup disk n end c = ground (arith, Option-cases (lookup n c.file_map))
  scan_entries-lookup disk n (entry e es) c =
      scan_entries-lookup disk n es (scan_entry disk e c)
      ∙ ap (scanned disk n (leaves es)) (scan_entry-lookup disk n e c)
      ∙ scanned-append disk n (leaves_entry e) (leaves es) (lookup n c.file_map)

abbrev pub leaves_of : Option Entries → List String
leaves_of none = []
leaves_of (some es) = leaves es

abbrev pub listed : (String → Option Entries) → List String → List String
listed tree [] = []
listed tree (d ∷ ds) = leaves_of (tree d) ++ listed tree ds

scan_tree-lookup :
    (disk : String → Stat) (n : String) (es : Option Entries) (c : Cache)
    → lookup n (scan_tree disk es c).0.file_map
      ≡ scanned disk n (leaves_of es) (lookup n c.file_map)
scan_tree-lookup disk n none c = ground (arith, Option-cases (lookup n c.file_map))
scan_tree-lookup disk n (some es) c = scan_entries-lookup disk n es c

scan_all-lookup :
    (disk : String → Stat) (tree : String → Option Entries) (ds : List String) (n : String)
    (c : Cache)
    → lookup n (scan_all disk tree ds c).file_map
      ≡ scanned disk n (listed tree ds) (lookup n c.file_map)
unfolding scan_all scan_directory
scan_all-lookup disk tree [] n c = ground (arith, Option-cases (lookup n c.file_map))
scan_all-lookup disk tree (d ∷ ds) n c =
    scan_all-lookup disk tree ds n (scan_tree disk (tree d) c).0
    ∙ ap (scanned disk n (listed tree ds)) (scan_tree-lookup disk n (tree d) c)
    ∙ scanned-append disk n (leaves_of (tree d)) (listed tree ds) (lookup n c.file_map)

-- The cache agrees with the disk as far as sizes and times tell.
pub record Fresh (disk : String → Stat) (tree : String → Option Entries) (before c : Cache)
    : Type 0 where
  pub absent : (n : String) → disk n ≡ missing → lookup n c.file_map ≡ none
  pub current :
      (n : String) (f : File) (size time : ℕ) (bytes : List ℕ)
      → disk n ≡ regular size time (some bytes)
      → lookup n c.file_map ≡ some f
      → (f.size ≡ size) × (f.time ≡ time)
  pub found :
      (n : String) (size time : ℕ) (bytes : List ℕ)
      → disk n ≡ regular size time (some bytes)
      → (contains n (listed tree before.directories) ≡ true) ⊎ (lookup n before.file_map ≢ none)
      → lookup n c.file_map ≢ none

update_files-lookup :
    (disk : String → Stat) (n : String) (c : Cache)
    → lookup n (update_files disk c).file_map ≡ (
        if contains n (gone disk c.file_map)
        then none
        else (if contains n (changed disk c.file_map) && (file disk n true).good
            then some (file disk n true)
            else lookup n c.file_map))
update_files-lookup disk n c = ground (
  arith,
  remove_all-lookup (gone disk c.file_map) n (add_all disk (changed disk c.file_map) c),
  add_all-lookup disk (changed disk c.file_map) n c,
)

-- After a round of the refreshing thread no file is left whose path the disk no longer has, each
-- file that the disk has and can read is there with the disk's size and time if it is there at all,
-- and each such file is there that was there before or lies below an added directory.
pub refresh-Fresh :
    (disk : String → Stat) (tree : String → Option Entries) (c : Cache)
    → Fresh disk tree c (refresh disk tree c)
unfolding refresh
refresh-Fresh disk tree c =
    let c1 = scan_all disk tree c.directories c in
    record {
      absent =
          λ n e. ground (arith, update_files-lookup disk n c1, gone-lookup disk c1.file_map n e);
      current = λ n f size time bytes e k. ground (
        arith,
        update_files-lookup disk n c1,
        gone-missing disk c1.file_map n,
        changed-lookup disk c1.file_map n f,
      );
      found = λ n size time bytes e h k. ground (
        arith,
        update_files-lookup disk n c1,
        gone-missing disk c1.file_map n,
        scan_all-lookup disk tree c.directories n c,
      );
    }
