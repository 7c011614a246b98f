-- ===== src/FileCache/Tests.antt =====
-- The theorems on the file cache at concrete files and events.
use text.Mathlib.Text.{◌==◌ as str_eq}
use Prim.Native.String.{String}
use petrel.Prelude.{
  ◌≡◌, refl, true, List, [], ◌∷◌, Option, some, none, if◌then◌else◌, get_or_default,
}
use petrel.Maps.{lookup, assign}
use petrel.FileCache.{
  remove_file_around, Stat, missing, regular, File, file, Cache, post, post_all, run_task,
  register_io_service, post_file, set_file, get_file, get_file_main,
}
use petrel.FileCache.Coherence.{System, Event, posts, finishes, registers, runs, gets, step, run}
use petrel.FileCache.Coherence.Runs.{start, run_and_get, race_stale}
use petrel.FileCache.Scan.{leaf, directory, Entries, end, entry, refresh}
use petrel.FileCache.Scan.Refresh.{Fresh, refresh-Fresh}

abbrev disk : String → Stat
disk path =
    if str_eq path "/www/index.html"
    then regular 2 100 (some (104 ∷ 105 ∷ []))
    else (if str_eq path "/www/img/a.png"
        then regular 1 200 (some (7 ∷ []))
        else (if str_eq path "/www/locked" then regular 9 300 none else missing))

abbrev index : File
index = file disk "/www/index.html" true

abbrev old_index : File
old_index = record index { file_data = 1 ∷ []; size = 1; time = 50 }

-- Two threads; thread 0 looks the file up while it is added.
abbrev events : List Event
events =
    registers 0
    ∷ registers 1
    ∷ runs 0
    ∷ gets 0 "/www/index.html"
    ∷ posts "/www/index.html" index
    ∷ gets 0 "/www/index.html"
    ∷ runs 0
    ∷ finishes
    ∷ gets 1 "/www/index.html"
    ∷ runs 1
    ∷ runs 1
    ∷ []

abbrev begun : System
begun = start ("/www" ∷ []) (("/www/index.html", old_index) ∷ [])

abbrev reached : System
reached = get_or_default (run begun events) begun

reached_file : (get_file 1 "/www/index.html" reached.cache).1 ≡ some index
unfolding run step start run_task register_io_service post post_all post_file set_file get_file
    get_file_main lookup assign
reached_file = refl

abbrev served : Cache
served = record {
  directories = "/www" ∷ [];
  file_map = ("/www/index.html", index) ∷ [];
  file_map_local = λ thread. some [];
  iosvcs = 0 ∷ [];
  queue = λ thread. [];
}

race_stale_example :
    let c' = remove_file_around (run_and_get 0 "/www/index.html") "/www/index.html" served in
    (lookup "/www/index.html" c'.file_map ≡ none)
    × ((get_file 0 "/www/index.html" c').1 ≡ some index)
unfolding lookup
race_stale_example = race_stale served 0 "/www/index.html" [] index refl refl refl refl

abbrev tree : String → Option Entries
tree path =
    if str_eq path "/www"
    then some (
        entry (leaf "/www/index.html") (
          entry (directory "/www/img" (entry (leaf "/www/img/a.png") end))
            (entry (leaf "/www/locked") end)))
    else none

refresh-Fresh_example : Fresh disk tree reached.cache (refresh disk tree reached.cache)
refresh-Fresh_example = refresh-Fresh disk tree reached.cache
