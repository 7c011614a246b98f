-- ===== src/FileCache.antt =====
-- `file_cache` of src/core/file_cache.h and file_cache.cpp: a map of files for the process and one
-- for each thread that runs a registered io service. A post to an io service puts a task into the
-- thread's queue. What the disk holds for a path is an argument, since Boost's filesystem answers
-- it. A thread is its number, and stands for its io service.
pub mod Threads
pub mod Coherence
pub mod Scan
mod Tests
use Prim.Native.String.{String}
use petrel.Prelude.{
  ℕ, ◌≡◌, Bool, true, false, List, [], ◌∷◌, ◌++◌, Option, none, some, ◌==◌, if◌then◌else◌, ◌||◌,
  ◌&&◌, not,
}
use petrel.Maps.{lookup, assign, erase}

-- What the disk has under a path; a regular file has its content if it can be opened.
pub data Stat : Type 0 where
  missing : Stat
  special : Stat
  regular : ℕ → ℕ → Option (List ℕ) → Stat

pub record File : Type 0 where
  pub name : String
  pub file_data : List ℕ
  pub size : ℕ
  pub time : ℕ
  pub good : Bool

abbrev pub Files : Type 0
Files = List (String × File)

-- The constructor of `file`, which leaves the member `m_name` empty.
abbrev pub empty_file : File
empty_file = record { name = ""; file_data = []; size = 0; time = 0; good = false }

abbrev pub load : String → Bool → Stat → File
load name read_from_disk missing = empty_file
load name read_from_disk special = empty_file
load name false (regular size time content) = record empty_file { size = size; time = time }
load name true (regular size time none) = record empty_file { size = size; time = time }
load name true (regular size time (some bytes)) = record {
  name = "";
  file_data = bytes;
  size = size;
  time = time;
  good = true;
}

abbrev pub file : (String → Stat) → String → Bool → File
file disk name read_from_disk = load name read_from_disk (disk name)

-- `operator!=`
abbrev pub differs : File → File → Bool
differs lhs rhs = not (lhs.size == rhs.size) || not (lhs.time == rhs.time)

-- The closures that are posted.
pub data Task : Type 0 where
  creates : Task
  resets : Task
  sets : String → File → Task
  erases : String → Task

pub record Cache : Type 0 where
  pub directories : List String
  pub file_map : Files
  pub file_map_local : ℕ → Option Files
  pub iosvcs : List ℕ
  pub queue : ℕ → List Task

abbrev pub at : {A : Type 0} → (ℕ → A) → ℕ → A → ℕ → A
at f thread a other = if thread == other then a else f other

pub post : ℕ → Task → (ℕ → List Task) → ℕ → List Task
post thread task queue = at queue thread (queue thread ++ task ∷ [])

-- `for (auto* iosvc : m_iosvcs) iosvc->post(…)`
pub post_all : List ℕ → Task → (ℕ → List Task) → ℕ → List Task
unfolding post
post_all [] task queue = queue
post_all (i ∷ is) task queue = post_all is task (post i task queue)

-- A task with the thread's map; `none` is a null pointer that is used.
abbrev pub perform : Task → Option Files → Option (Option Files)
perform creates m = some (some [])
perform resets m = some none
perform (sets name f) none = none
perform (sets name f) (some m) = some (some (assign name f m))
perform (erases name) none = none
perform (erases name) (some m) = some (some (erase name m))

-- The thread takes the next task out of its queue.
abbrev pub perform_next : ℕ → List Task → Cache → Option Cache
perform_next thread [] c = some c
perform_next thread (task ∷ rest) c = elim (perform task (c.file_map_local thread)) [
  | none ↦ none
  | some m ↦
      some
        (record c { file_map_local = at c.file_map_local thread m; queue = at c.queue thread rest })
]

pub run_task : ℕ → Cache → Option Cache
run_task thread c = perform_next thread (c.queue thread) c

unfoldable pub register_io_service : ℕ → Cache → Cache
unfolding post
register_io_service thread c = record c {
  iosvcs = c.iosvcs ++ thread ∷ [];
  queue = post thread creates c.queue;
}

-- Only the first entry is erased.
abbrev pub erase_first : ℕ → List ℕ → List ℕ
erase_first thread [] = []
erase_first thread (i ∷ is) = if i == thread then is else i ∷ erase_first thread is

pub unregister_io_service : ℕ → Cache → Cache
unfolding post
unregister_io_service thread c = record c {
  iosvcs = erase_first thread c.iosvcs;
  queue = post thread resets c.queue;
}

-- `add_file` and `remove_file` in their two halves: the posts, and the change of the main map under
-- its mutex.
pub post_file : String → File → Cache → Cache
unfolding post_all
post_file name f c = record c { queue = post_all c.iosvcs (sets name f) c.queue }

pub set_file : String → File → Cache → Cache
set_file name f c = record c { file_map = assign name f c.file_map }

pub add_file : (String → Stat) → String → Cache → Cache × Bool
unfolding post_file set_file
add_file disk name c =
    let f = file disk name true in
    if f.good then (set_file name f (post_file name f c), true) else (c, false)

pub post_removal : String → Cache → Cache
unfolding post_all
post_removal name c = record c { queue = post_all c.iosvcs (erases name) c.queue }

pub erase_file : String → Cache → Cache
erase_file name c = record c { file_map = erase name c.file_map }

-- `others` is what other threads do between the two halves.
pub remove_file_around : (Cache → Cache) → String → Cache → Cache
unfolding post_removal erase_file
remove_file_around others name c = erase_file name (others (post_removal name c))

pub remove_file : String → Cache → Cache
unfolding remove_file_around
remove_file name c = remove_file_around (λ d. d) name c

unfoldable pub get_file_main : String → Cache → Option File
get_file_main name c = lookup name c.file_map

-- The lookup in the main map, with the thread's own map to update if it has one.
abbrev pub fall_back : ℕ → String → Option Files → Option File → Cache → Cache × Option File
fall_back thread name (some m) (some f) c =
    (record c { file_map_local = at c.file_map_local thread (some (assign name f m)) }, some f)
fall_back thread name (some m) none c = (c, none)
fall_back thread name none found c = (c, found)

abbrev pub find_local : String → Option Files → Option File
find_local name none = none
find_local name (some m) = lookup name m

unfoldable pub get_file : ℕ → String → Cache → Cache × Option File
unfolding get_file_main
get_file thread name c = elim (find_local name (c.file_map_local thread)) [
  | some f ↦ (c, some f)
  | none ↦ fall_back thread name (c.file_map_local thread) (get_file_main name c) c
]
