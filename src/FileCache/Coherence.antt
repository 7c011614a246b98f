-- ===== src/FileCache/Coherence.antt =====
-- The maps of the threads and the main map, when files are added and none is removed.
pub mod Posts
pub mod Steps
pub mod Runs
use text.Mathlib.Text.{◌==◌ as str_eq}
use Prim.Native.String.{String}
use petrel.Prelude.{
  ℕ, ◌≡◌, ◌≢◌, refl, sym, ap, ◌∙◌, ◌⊎◌, inl, inr, Bool, true, false, List, [], ◌∷◌, ◌++◌, Option,
  none, some, ◌==◌, if◌then◌else◌, arith, member, member-append, Option-cases, Bool-cases,
}
use petrel.Maps.{lookup, assign, erase, lookup-assign, lookup-erase}
use petrel.FileCache.{
  File, Files, Task, creates, resets, sets, erases, Cache, at, post, post_all, perform,
  perform_next, run_task, find_local, register_io_service, post_file, set_file, get_file,
  get_file_main, fall_back,
}
use petrel.FileCache.Threads.{
  effect, after, value, after-append, after-cases, perform-effect, after-post_all, alive, exists,
  alive-append, alive-post_all, post_all-other,
}

-- The cache with the file that the refreshing thread has posted but not yet put into the main map.
pub record System : Type 0 where
  pub cache : Cache
  pub pending : Option (String × File)

pub data Event : Type 0 where
  posts : String → File → Event  -- the first half of add_file
  finishes : Event  -- its second half
  registers : ℕ → Event
  runs : ℕ → Event  -- a thread runs its next task
  gets : ℕ → String → Event  -- get_file on a thread

abbrev pub post_step : String → File → Cache → Option (String × File) → Option System
post_step name f c none = some (record { cache = post_file name f c; pending = some (name, f) })
post_step name f c (some p) = none

abbrev pub finish_step : Cache → Option (String × File) → Option System
finish_step c none = none
finish_step c (some (name, f)) = some (record { cache = set_file name f c; pending = none })

abbrev pub register_step : ℕ → Cache → Option (String × File) → Option System
register_step thread c none =
    if member thread c.iosvcs
    then none
    else some (record { cache = register_io_service thread c; pending = none })
register_step thread c (some p) = none

abbrev pub run_step : Option (String × File) → Option Cache → Option System
run_step pending none = none
run_step pending (some c) = some (record { cache = c; pending = pending })

-- One file is added at a time, and a thread is registered once, when none is being added.
unfoldable pub step : System → Event → Option System
step s (posts name f) = post_step name f s.cache s.pending
step s finishes = finish_step s.cache s.pending
step s (registers thread) = register_step thread s.cache s.pending
step s (runs thread) = run_step s.pending (run_task thread s.cache)
step s (gets thread name) = some (record s { cache = (get_file thread name s.cache).0 })

unfoldable pub run : System → List Event → Option System
run s [] = some s
run s (e ∷ es) = elim (step s e) [ none ↦ none | some s' ↦ run s' es ]

-- What the main map has once the file that is being added is in it.
abbrev pub latest : String → Files → Option (String × File) → Option File
latest n m none = lookup n m
latest n m (some (k, f)) = if str_eq k n then some f else lookup n m

pub record Coherent (s : System) : Type 0 where
  -- what a thread has, or will have after its tasks, is what the main map has or will have
  pub agree :
      (thread : ℕ) (n : String) (f : File)
      → value n thread s.cache ≡ some f
      → latest n s.cache.file_map s.pending ≡ some f
  pub told :
      (thread : ℕ) (n : String) (f : File)
      → s.pending ≡ some (n, f)
      → member thread s.cache.iosvcs ≡ true
      → value n thread s.cache ≡ some f
  pub live :
      (thread : ℕ)
      → member thread s.cache.iosvcs ≡ true
      → alive (exists (s.cache.file_map_local thread)) (s.cache.queue thread) ≡ true
  pub idle :
      (thread : ℕ)
      → member thread s.cache.iosvcs ≡ false
      → (s.cache.queue thread ≡ []) × (s.cache.file_map_local thread ≡ none)
