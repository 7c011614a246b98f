-- ===== src/LuaStates.antt =====
-- `lua_state_manager` of src/core/lua_state_manager.h and lua_state_manager.cpp: the pool of Lua
-- states, one cache for all threads and one for each thread that runs a registered io service.
-- A Lua state is its number in the order of `luaL_newstate`. The head of a list is the back of a
-- vector. A mutex protects each access to the shared cache, so what the threads do is a sequence of
-- the operations below. What Lua answers (no memory, an error in a script) is an argument.
pub mod Bootstrap
pub mod Ownership
pub mod Watcher
mod Tests
use Prim.Native.String.{String}
use petrel.Prelude.{
  ℕ, zero, suc, ◌+◌, ◌-◌, ◌%◌, Bool, true, false, List, [], ◌∷◌, ◌++◌, Option, none, some, ◌==◌,
  ltb, length, get_elem?, set, if◌then◌else◌,
}

pub record Manager : Type 0 where
  pub state_cache : List ℕ
  pub state_cache_local : List (Option (List ℕ))  -- by thread; `none` is a null pointer
  pub objects : ℕ → List ℕ  -- the vector behind `ctx->p_objects` of a state
  pub code : List String
  pub dev_mode : Bool
  pub created : ℕ  -- how many states `luaL_newstate` has made
  pub closed : List ℕ  -- the states that `lua_close` was called for

-- What happens inside `create_state`.
pub data Creation : Type 0 where
  no_memory : Creation  -- luaL_newstate gives a null pointer
  load_fails : Creation  -- a script or a code string throws
  loads : Creation

pub data Result : Type 0 where
  ok : ℕ → Result
  throws : Result

pub Creation-discrete : Discrete Creation
Creation-discrete = hlevel

abbrev pub set_objects : (ℕ → List ℕ) → ℕ → List ℕ → ℕ → List ℕ
set_objects objects l objs other = if l == other then objs else objects other

-- `m_state_cache_local` of a thread; threads beyond the list never registered.
abbrev pub local : Manager → ℕ → Option (List ℕ)
local m thread = elim (get_elem? m.state_cache_local thread) [ none ↦ none | some cache ↦ cache ]

abbrev pub set_local : Manager → ℕ → Option (List ℕ) → Manager
set_local m thread cache = record m { state_cache_local = set m.state_cache_local thread cache }

pub create_state : Creation → Manager → Manager × Result
create_state no_memory m = (m, throws)
create_state load_fails m = (record m { created = m.created + 1 }, throws)
create_state loads m = (
  record m { created = m.created + 1; objects = set_objects m.objects m.created [] },
  ok m.created,
)

-- The library objects are deleted and the state is closed.
pub destroy_state : ℕ → Manager → Manager
destroy_state l m = record m { objects = set_objects m.objects l []; closed = l ∷ m.closed }

-- The first part of `get_state`: a state out of the shared cache.
abbrev pub take_shared : List ℕ → Manager → Manager × Option ℕ
take_shared [] m = (m, none)
take_shared (l ∷ ls) m = (record m { state_cache = ls }, some l)

abbrev pub take_from : Option (List ℕ) → ℕ → Manager → Manager × Option ℕ
take_from none thread m = take_shared m.state_cache m
take_from (some []) thread m = take_shared m.state_cache m
take_from (some (l ∷ ls)) thread m = (set_local m thread (some ls), some l)

unfoldable pub take_state : ℕ → Manager → Manager × Option ℕ
take_state thread m = take_from (local m thread) thread m

-- The second part: a state is created if none was there; in dev mode the scripts are loaded again,
-- and `reloads` says whether they do without an error.
abbrev pub ready : Creation → Bool → Manager × Option ℕ → Manager × Result
ready creation reloads (m, none) = create_state creation m
ready creation reloads (m, some l) =
    if m.dev_mode then (m, (if reloads then ok l else throws)) else (m, ok l)

unfoldable pub get_state : ℕ → Creation → Bool → Manager → Manager × Result
unfolding take_state create_state
get_state thread creation reloads m = ready creation reloads (take_state thread m)

abbrev pub put : Option (List ℕ) → ℕ → ℕ → Manager → Manager
put none thread l m = record m { state_cache = l ∷ m.state_cache }
put (some ls) thread l m = set_local m thread (some (l ∷ ls))

pub free_state : ℕ → ℕ → Manager → Manager
free_state thread l m =
    put (local m thread) thread l (record m { objects = set_objects m.objects l [] })

-- The task that `register_io_service` posts to the thread.
unfoldable pub register_io_service : ℕ → Manager → Manager
register_io_service thread m = set_local m thread (some [])

pub destroy_all : List ℕ → Manager → Manager
unfolding destroy_state
destroy_all [] m = m
destroy_all (l ∷ ls) m = destroy_all ls (destroy_state l m)

-- The task of `unregister_io_service`; a fault (`none`) if the thread has no cache.
pub unregister_io_service : ℕ → Manager → Option Manager
unfolding destroy_all
unregister_io_service thread m = elim (local m thread) [
  | none ↦ none
  | some ls ↦ some (set_local (destroy_all ls m) thread none)
]

-- `to_create` of the watcher: an int less a size_t, kept in a uint32.
pub to_create : ℕ → ℕ → ℕ
to_create buffer_size size =
    (buffer_size + 18446744073709551616 - size) % 18446744073709551616 % 4294967296

-- The rounds of `for (int i = to_create; i > 0; --i)`: from 2^31 on the int is negative.
pub rounds : ℕ → ℕ
rounds n = if ltb n 2147483648 then n else 0

-- The loop of the watcher; `creation i` is what happens in round `i`, and an exception ends it. The
-- mutex is free between the read of the size and each `push_back`: `others i` is what other threads
-- do with the pool before the `push_back` of round `i`.
abbrev push_created : (Manager → Manager) → (Manager → Manager) → Manager × Result → Manager
push_created others rest (m, ok l) =
    let k = others m in rest (record k { state_cache = l ∷ k.state_cache })
push_created others rest (m, throws) = m

pub watch_loop : ℕ → (ℕ → Creation) → (ℕ → Manager → Manager) → Manager → Manager
unfolding create_state
watch_loop zero creation others m = m
watch_loop (suc n) creation others m =
    push_created (others n) (watch_loop n creation others) (create_state (creation n) m)

-- One round of the watcher thread.
pub watch : ℕ → (ℕ → Creation) → (ℕ → Manager → Manager) → Manager → Manager
unfolding to_create rounds watch_loop
watch buffer_size creation others m =
    watch_loop (rounds (to_create buffer_size (length m.state_cache))) creation others m

unfoldable pub add_lua_code : String → Manager → Manager
add_lua_code text m = record m { code = m.code ++ text ∷ [] }

unfoldable pub clear_code : Manager → Manager
clear_code m = record m { code = [] }

-- The destructor, once the watcher has ended: the states of the shared cache are destroyed.
unfoldable pub shut_down : Manager → Manager
unfolding destroy_all
shut_down m = record (destroy_all m.state_cache m) { state_cache = [] }
