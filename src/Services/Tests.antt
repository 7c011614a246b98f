-- ===== src/Services/Tests.antt =====
-- Two io services.
use petrel.Prelude.{◌≡◌, refl, [], ◌∷◌, none, some, false}
use petrel.Services.{Services, register, register_io_services}
use petrel.LuaStates
use petrel.FileCache

abbrev before : Services
before = record {
  pool = record {
    state_cache = [];
    state_cache_local = none ∷ none ∷ [];
    objects = λ l. [];
    code = [];
    dev_mode = false;
    created = 0;
    closed = [];
  };
  file_cache = record {
    directories = [];
    file_map = [];
    file_map_local = λ thread. none;
    iosvcs = [];
    queue = λ thread. [];
  };
  fibers = λ thread. record {
    cache = none;
    fib_cnt = 0;
    stop = false;
    func = λ id. none;
    detached = [];
    called = [];
  };
}

registered :
    ((register_io_services (0 ∷ 1 ∷ []) before).pool.state_cache_local ≡ some [] ∷ some [] ∷ [])
    × ((register_io_services (0 ∷ 1 ∷ []) before).file_cache.iosvcs ≡ 0 ∷ 1 ∷ [])
unfolding register_io_services register LuaStates.register_io_service FileCache.register_io_service
registered = (refl, refl)
