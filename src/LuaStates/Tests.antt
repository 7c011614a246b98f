-- ===== src/LuaStates/Tests.antt =====
-- The theorems on the pool of Lua states at concrete events.
use Prim.Native.Nat.{max}
use petrel.Prelude.{
  ℕ, ◌<◌, ◌≤◌, ◌≡◌, refl, true, false, List, [], ◌∷◌, some, none, count, length, get_or_default,
  arith, drop, length-drop,
}
use petrel.LuaStates.{
  Manager, loads, load_fails, create_state, destroy_state, take_state, get_state, free_state,
  register_io_service, watch,
}
use petrel.LuaStates.Bootstrap.{runs, bootstrap}
use petrel.LuaStates.Ownership.{
  World, Event, gets, adds, frees, pushes, registers, boots, step, run, IsValid,
}
use petrel.LuaStates.Ownership.Runs.{start, run-start-IsValid, get_state-unshared}
use petrel.LuaStates.Watcher.{OnlyTake, Balanced, watch_size}

-- Two threads: state 0 is for bootstrap, 1 and 2 are made ahead, thread 0 serves a request and keeps
-- state 2.
abbrev events : List Event
events =
    boots loads (runs (5 ∷ []))
    ∷ registers 0
    ∷ pushes loads
    ∷ pushes loads
    ∷ gets 0 loads true
    ∷ adds 2 77
    ∷ gets 1 load_fails true
    ∷ frees 0 2
    ∷ gets 1 load_fails true
    ∷ []

abbrev reached : World
reached = get_or_default (run (start 2 false) events) (start 2 false)

events-run : run (start 2 false) events ≡ some reached
unfolding run step start bootstrap create_state destroy_state get_state free_state
    register_io_service take_state
events-run = refl

places :
    (reached.manager.state_cache ≡ [])
    × (reached.manager.state_cache_local ≡ some (2 ∷ []) ∷ none ∷ [])
    × (reached.held ≡ 1 ∷ [])
    × (reached.lost ≡ 3 ∷ [])
    × (reached.manager.closed ≡ 0 ∷ [])
unfolding run step start bootstrap create_state destroy_state get_state free_state
    register_io_service take_state
places = (refl, refl, refl, refl, refl)

run-start-IsValid_example : IsValid reached
run-start-IsValid_example = run-start-IsValid 2 false events reached events-run

abbrev served : Manager
served = record reached.manager { state_cache_local = some [] ∷ none ∷ [] }

get_state-unshared_example : (count 2 reached.held ≡ 0) × (served.objects 2 ≡ [])
unfolding run step start bootstrap create_state destroy_state get_state free_state
    register_io_service take_state
get_state-unshared_example =
    get_state-unshared 2 false events reached 0 loads true served 2 events-run refl

-- Another thread takes a state out of the shared cache before each push.
abbrev takers : ℕ → Manager → Manager
takers i m = record m { state_cache = drop 1 m.state_cache }

takers-OnlyTake : OnlyTake takers
takers-OnlyTake i m = ground (arith, length-drop 1 m.state_cache)

watch_size_example :
    (length (watch 3 (λ i. loads) takers reached.manager).state_cache
      ≤ max 3 (length reached.manager.state_cache))
    × (Balanced takers
        → ((i : ℕ) → i < 3 → loads ≡ loads)
        → length (watch 3 (λ i. loads) takers reached.manager).state_cache
          ≡ max 3 (length reached.manager.state_cache))
unfolding run step start bootstrap create_state destroy_state get_state free_state
    register_io_service take_state
watch_size_example =
    watch_size 3 (λ i. loads) takers reached.manager (omega arith) (omega arith) takers-OnlyTake
