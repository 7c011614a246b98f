-- ===== src/Services.antt =====
-- `register_io_services` and `unregister_io_services` of src/core/server_impl.cpp: each io service of the
-- server is registered with the pool of Lua states, the file cache and the fiber cache. The list holds
-- the threads of nghttp2's io services, or of the workers. What is posted to them for the pool and the
-- fibers is run at once.
mod Tests
use petrel.Prelude.{ℕ, ◌≡◌, List, [], ◌∷◌, Option, none, some, ◌==◌, if◌then◌else◌}
use petrel.LuaStates.{Manager}
use petrel.LuaStates
use petrel.FileCache.{Cache, at}
use petrel.FileCache
use petrel.Fibers.{Fibers, request_stop, clean_up}
use petrel.Fibers

pub record Services : Type 0 where
  pub pool : Manager
  pub file_cache : Cache
  pub fibers : ℕ → Fibers

-- `regf`
unfoldable pub register : ℕ → Services → Services
register thread s = record {
  pool = LuaStates.register_io_service thread s.pool;
  file_cache = FileCache.register_io_service thread s.file_cache;
  fibers = at s.fibers thread (Fibers.register_io_service (s.fibers thread));
}

unfoldable pub register_io_services : List ℕ → Services → Services
register_io_services [] s = s
register_io_services (thread ∷ threads) s = register_io_services threads (register thread s)

-- `unregf`, once all fibers of the thread are back in its cache.
unfoldable pub unregister : ℕ → Services → Option Services
unregister thread s = elim (LuaStates.unregister_io_service thread s.pool) [
  | none ↦ none
  | some pool ↦ some (record {
    pool = pool;
    file_cache = FileCache.unregister_io_service thread s.file_cache;
    fibers = at s.fibers thread (clean_up (request_stop (s.fibers thread)));
  })
]

unfoldable pub unregister_io_services : List ℕ → Services → Option Services
unregister_io_services [] s = some s
unregister_io_services (thread ∷ threads) s = elim (unregister thread s) [
  | none ↦ none
  | some s' ↦ unregister_io_services threads s'
]
