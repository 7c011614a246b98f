-- ===== src/FileCache/Coherence/Runs.antt =====
-- What `get_file` answers on any thread.
use text.Mathlib.TextEquality.{eq_iff}
use Prim.Native.String.{String}
use petrel.Prelude.{ℕ, ◌≡◌, ◌≢◌, refl, List, [], ◌∷◌, Option, none, some, arith}
use petrel.Maps.{lookup, assign, erase, lookup-assign, lookup-erase}
use petrel.FileCache.{
  File, Files, Task, erases, Cache, at, post, post_all, perform, perform_next, run_task, get_file,
  get_file_main, post_removal, remove_file_around, erase_file,
}
use petrel.FileCache.Coherence.{System}
use petrel.FileCache.Coherence.Posts.{ran}
use petrel.FileCache.Coherence.Steps.{got}

-- A cache with files in the main map and no registered thread.
unfoldable pub start : List String → Files → System
start directories files = record {
  cache = record {
    directories = directories;
    file_map = files;
    file_map_local = λ thread. none;
    iosvcs = [];
    queue = λ thread. [];
  };
  pending = none;
}

-- No task of a thread uses a null map; and once no file is being added and a thread has run its
-- tasks, the thread gets what the main map has.
pub record Answers (s : System) : Type 0 where
  pub no_fault : (thread : ℕ) → run_task thread s.cache ≢ none
  pub settled :
      (thread : ℕ) (name : String)
      → s.pending ≡ none
      → s.cache.queue thread ≡ []
      → (get_file thread name s.cache).1 ≡ lookup name s.cache.file_map

-- A thread runs its next task and then looks the file up.
abbrev pub run_and_get : ℕ → String → Cache → Cache
run_and_get thread name c = elim (run_task thread c) [
  | none ↦ c
  | some c' ↦ (get_file thread name c').0
]

posted :
    (c : Cache) (thread : ℕ) (name : String)
    → c.iosvcs ≡ thread ∷ []
    → c.queue thread ≡ []
    → (post_removal name c).queue thread ≡ erases name ∷ []
unfolding post_removal post_all post
posted c thread name i q = rw i (ground arith)

run_task-next :
    (c : Cache) (thread : ℕ) (t : Task) (m m' : Option Files)
    → c.queue thread ≡ t ∷ []
    → c.file_map_local thread ≡ m
    → perform t m ≡ some m'
    → run_task thread c ≡ some (ran thread [] m' c)
unfolding run_task
run_task-next c thread t m m' q l e = rw (q, perform_next, l, e) refl

get_file-got :
    (c : Cache) (thread : ℕ) (name : String) (m : Files) (f : File)
    → c.file_map_local thread ≡ some m
    → lookup name m ≡ none
    → lookup name c.file_map ≡ some f
    → (get_file thread name c).0 ≡ got thread name m f c
unfolding get_file get_file_main
get_file-got c thread name m f l absent k = rw (l, absent, get_file, k, l) refl

-- A file that a thread has is what it gets.
get_file-local :
    (c : Cache) (thread : ℕ) (name : String) (m : Files) (f : File)
    → c.file_map_local thread ≡ some m
    → lookup name m ≡ some f
    → (get_file thread name c).1 ≡ some f
unfolding get_file
get_file-local c thread name m f l there = rw (l, there, get_file) refl

erased : (name : String) (fs : Files) → lookup name (erase name fs) ≡ none
erased name fs = ground (arith, eq_iff name name, lookup-erase name name fs)

assigned : (name : String) (f : File) (fs : Files) → lookup name (assign name f fs) ≡ some f
assigned name f fs = ground (arith, eq_iff name name, lookup-assign name name f fs)

at_self : {A : Type 0} (g : ℕ → A) (thread : ℕ) (a : A) → at g thread a thread ≡ a
at_self g thread a = ground arith

-- With one io service, whose thread has no tasks left and has the file: if the thread runs the task
-- of `remove_file` and then looks the file up before `remove_file` gets to the main map, the thread
-- still gets the file once it is gone from the main map.
pub race_stale :
    (c : Cache) (thread : ℕ) (name : String) (m : Files) (f : File)
    → c.iosvcs ≡ thread ∷ []
    → c.queue thread ≡ []
    → c.file_map_local thread ≡ some m
    → lookup name c.file_map ≡ some f
    → let c' = remove_file_around (run_and_get thread name) name c in
      (lookup name c'.file_map ≡ none) × ((get_file thread name c').1 ≡ some f)
unfolding remove_file_around
race_stale c thread name m f i q l k =
    let c1 = post_removal name c in
    let c2 = ran thread [] (some (erase name m)) c1 in
    let c3 = got thread name (erase name m) f c2 in
    let runs : run_task thread c1 ≡ some c2 =
      run_task-next c1 thread (erases name) (some m) (some (erase name m))
        (posted c thread name i q) (unfold post_removal in l) refl in
    let gets : (get_file thread name c2).0 ≡ c3 =
      get_file-got c2 thread name (erase name m) f
        (at_self c1.file_map_local thread (some (erase name m))) (erased name m)
        (unfold post_removal in k) in
    let between : run_and_get thread name c1 ≡ c3 = rw (runs, run_and_get) gets in
    rw between (
      unfold erase_file in erased name c3.file_map,
      unfold erase_file in
          get_file-local (erase_file name c3) thread name (assign name f (erase name m)) f
            (at_self c2.file_map_local thread (some (assign name f (erase name m))))
            (assigned name f (erase name m)),
    )
