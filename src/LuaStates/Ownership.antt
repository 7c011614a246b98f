-- ===== src/LuaStates/Ownership.antt =====
-- Who has each Lua state of the pool: one cache, one request, or nobody, if it was closed or lost.
pub mod Caches
pub mod Steps
pub mod Runs
use mathlib.Core.Path.{subst}
use mathlib.Core.Option.{some-injective}
use petrel.Prelude.{
  member, count-append, replicate, ℕ, zero, suc, ◌+◌, ◌-◌, ◌≤◌, ◌<◌, ◌≡◌, ◌≢◌, refl, sym, ap, ◌∙◌,
  ◌⊎◌, inl, inr, Bool, true, false, List, [], ◌∷◌, ◌++◌, Option, none, some, ◌==◌, ltb, length,
  get_elem?, set, count, if◌then◌else◌, arith, Option-cases, Bool-cases,
}
use petrel.LuaStates.{
  Manager, Creation, no_memory, load_fails, loads, Result, ok, throws, local, set_local,
  set_objects, create_state, destroy_state, take_shared, take_from, take_state, ready, put,
  get_state, free_state, register_io_service, destroy_all, unregister_io_service,
}
use petrel.LuaStates.Bootstrap.{Boot, no_function, fails, runs, bootstrap}

-- The states in the thread-local caches.
abbrev pub cached : Option (List ℕ) → List ℕ
cached none = []
cached (some ls) = ls

abbrev pub count_local : ℕ → List (Option (List ℕ)) → ℕ
count_local a [] = 0
count_local a (c ∷ cs) = count a (cached c) + count_local a cs

-- The manager with the states that requests hold, and those that nobody can reach any more.
pub record World : Type 0 where
  pub manager : Manager
  pub held : List ℕ
  pub lost : List ℕ

-- How many owners the state `a` has.
abbrev pub owners : ℕ → World → ℕ
owners a w =
    count a w.manager.state_cache
    + count_local a w.manager.state_cache_local
    + count a w.manager.closed
    + count a w.held
    + count a w.lost

-- What a request does with the pool, and what the watcher and the server's start and stop do.
pub data Event : Type 0 where
  gets : ℕ → Creation → Bool → Event  -- get_state on a thread
  adds : ℕ → ℕ → Event  -- a request makes a library object in a state that it holds
  frees : ℕ → ℕ → Event  -- free_state of a state that a request holds, on a thread
  pushes : Creation → Event  -- the watcher creates a state and puts it into the shared cache
  registers : ℕ → Event
  unregisters : ℕ → Event
  boots : Creation → Boot → Event  -- the bootstrap function is called

abbrev pub remove : ℕ → List ℕ → List ℕ
remove a [] = []
remove a (x ∷ xs) = if x == a then xs else x ∷ remove a xs

-- The state that nobody can reach after an exception of `get_state`.
abbrev pub loses : Option ℕ → Creation → ℕ → List ℕ
loses (some l) creation created = l ∷ []
loses none no_memory created = []
loses none load_fails created = created ∷ []
loses none loads created = []

-- The state that `bootstrap` neither closes nor keeps when it throws.
abbrev pub abandons : Creation → Boot → ℕ → List ℕ
abandons no_memory boot created = []
abandons load_fails boot created = created ∷ []
abandons loads no_function created = created ∷ []
abandons loads (fails objs) created = created ∷ []
abandons loads (runs objs) created = []

abbrev pub settle : World → List ℕ → Manager × Result → World
settle w gone (m, ok l) = record w { manager = m; held = l ∷ w.held }
settle w gone (m, throws) = record w { manager = m; lost = gone ++ w.lost }

abbrev pub settle_push : World → List ℕ → Manager × Result → World
settle_push w gone (m, ok l) = record w { manager = record m { state_cache = l ∷ m.state_cache } }
settle_push w gone (m, throws) = record w { manager = m; lost = gone ++ w.lost }

-- An event, where the program can make it happen: a request adds to and frees only states that it
-- holds, and a thread is unregistered only if it has a cache.
unfoldable pub step : World → Event → Option World
step w (gets thread creation reloads) = some (
    settle w (loses (take_state thread w.manager).1 creation w.manager.created)
      (get_state thread creation reloads w.manager))
step w (adds l obj) =
    if member l w.held
    then some (record w {
      manager = record w.manager {
        objects = set_objects w.manager.objects l (obj ∷ w.manager.objects l);
      };
    })
    else none
step w (frees thread l) =
    if member l w.held
    then some (record w { manager = free_state thread l w.manager; held = remove l w.held })
    else none
step w (pushes creation) =
    some (settle_push w (loses none creation w.manager.created) (create_state creation w.manager))
step w (registers thread) =
    if ltb thread (length w.manager.state_cache_local)
    then some (record w {
      manager = register_io_service thread w.manager;
      lost = cached (local w.manager thread) ++ w.lost;
    })
    else none
step w (unregisters thread) = elim (unregister_io_service thread w.manager) [
  | none ↦ none
  | some m ↦ some (record w { manager = m })
]
step w (boots creation boot) = some (record w {
  manager = (bootstrap creation boot w.manager).0;
  lost = abandons creation boot w.manager.created ++ w.lost;
})

unfoldable pub run : World → List Event → Option World
run w [] = some w
run w (e ∷ es) = elim (step w e) [ none ↦ none | some w' ↦ run w' es ]

-- Each state that was created has exactly one owner, no other has one, and a state in a cache has no
-- library objects left.
pub record IsValid (w : World) : Type 0 where
  pub owned : (a : ℕ) → owners a w ≡ (if ltb a w.manager.created then 1 else 0)
  pub clean :
      (a : ℕ)
      → 0 < count a w.manager.state_cache + count_local a w.manager.state_cache_local
      → w.manager.objects a ≡ []
