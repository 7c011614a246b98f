-- ===== src/Fibers.antt =====
-- `fiber_cache` of src/core/fiber_cache.h and fiber_cache.cpp on one thread: fibers that run the handlers
-- of requests and are used again. A fiber is its number in the order of creation, a function that
-- `run` is called with is a number too. A fiber that waits is woken by `notify` alone. The head of a
-- list is the back of a vector.
pub mod Ownership
mod Tests
use petrel.Prelude.{
  ℕ, ◌+◌, ◌≡◌, Bool, true, false, List, [], ◌∷◌, Option, none, some, ◌==◌, length, if◌then◌else◌,
}

pub record Fibers : Type 0 where
  pub cache : Option (List ℕ)  -- `none` is a null pointer
  pub fib_cnt : ℕ
  pub stop : Bool
  pub func : ℕ → Option ℕ  -- the function of a fiber; `none` is null
  pub detached : List ℕ  -- functions that run in a fiber of their own
  pub called : List ℕ  -- functions that a fiber of the cache has run

abbrev pub set_func : (ℕ → Option ℕ) → ℕ → Option ℕ → ℕ → Option ℕ
set_func func fiber f other = if fiber == other then f else func other

-- The rest of `get_fiber` once `m_stop` is not set; a new fiber starts with no function.
abbrev pub take_fiber : Option (List ℕ) → Fibers → Fibers × Option ℕ
take_fiber none s = (s, none)
take_fiber (some (id ∷ ids)) s = (record s { cache = some ids }, some id)
take_fiber (some []) s =
    (record s { fib_cnt = s.fib_cnt + 1; func = set_func s.func s.fib_cnt none }, some s.fib_cnt)

unfoldable pub get_fiber : Fibers → Fibers × Option ℕ
get_fiber s = if s.stop then (s, none) else take_fiber s.cache s

abbrev pub start_in : ℕ → Fibers × Option ℕ → Fibers
start_in f (s, some id) = record s { func = set_func s.func id (some f) }
start_in f (s, none) = record s { detached = f ∷ s.detached }

unfoldable pub run : ℕ → Fibers → Fibers
run f s = start_in f (get_fiber s)

-- A round of a fiber's loop that was woken: the function is called and reset, and the fiber goes
-- back into the cache if there is one. `none`: the loop is left.
abbrev pub put_back : ℕ → Option (List ℕ) → Option (List ℕ)
put_back id none = none
put_back id (some ids) = some (id ∷ ids)

abbrev pub call : ℕ → Option ℕ → Fibers → Option Fibers
call id none s = none
call id (some f) s = some (record s {
  func = set_func s.func id none;
  called = f ∷ s.called;
  cache = put_back id s.cache;
})

unfoldable pub wake : ℕ → Fibers → Option Fibers
wake id s = call id (s.func id) s

-- The tasks of `register_io_service` and `unregister_io_service`.
unfoldable pub register_io_service : Fibers → Fibers
register_io_service s = record s { cache = some [] }

unfoldable pub request_stop : Fibers → Fibers
request_stop s = record s { stop = true }

-- `m_fib_cnt == m_cache->size()`; a fault without a cache.
unfoldable pub no_active : Fibers → Option Bool
no_active s = elim s.cache [ none ↦ none | some ids ↦ some (s.fib_cnt == length ids) ]

-- The last task: a cached fiber has no function, so it ends when it is woken.
unfoldable pub clean_up : Fibers → Fibers
clean_up s = record s { cache = none }
