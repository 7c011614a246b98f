-- ===== src/Fibers/Ownership.antt =====
-- Where each fiber is: in the cache, or with a function to run.
use mathlib.Core.Path.{subst}
use mathlib.Core.Option.{some-injective}
use petrel.Prelude.{
  ℕ, ◌+◌, ◌≡◌, ◌≢◌, refl, sym, ◌∙◌, false, List, [], ◌∷◌, Option, none, some, ltb, if◌then◌else◌,
  count, arith, Option-cases, inl, inr,
}
use petrel.Fibers.{Fibers, get_fiber, run, call, wake, request_stop}

abbrev pub active : Option ℕ → ℕ
active none = 0
active (some f) = 1

abbrev pub cached : Option (List ℕ) → List ℕ
cached none = []
cached (some ids) = ids

pub data Event : Type 0 where
  runs : ℕ → Event
  wakes : ℕ → Event
  stops : Event

unfoldable pub step : Fibers → Event → Option Fibers
step s (runs f) = some (run f s)
step s (wakes id) = wake id s
step s stops = some (request_stop s)

unfoldable pub run_events : Fibers → List Event → Option Fibers
run_events s [] = some s
run_events s (e ∷ es) = elim (step s e) [ none ↦ none | some s' ↦ run_events s' es ]

-- A thread that has been registered.
unfoldable pub start : Fibers
start = record {
  cache = some [];
  fib_cnt = 0;
  stop = false;
  func = λ id. none;
  detached = [];
  called = [];
}

-- Each fiber is once in the cache without a function, or not there with one; there is a cache.
pub record IsValid (s : Fibers) : Type 0 where
  pub owned :
      (id : ℕ)
      → count id (cached s.cache) + active (s.func id) ≡ (if ltb id s.fib_cnt then 1 else 0)
  pub has_cache : s.cache ≢ none

run-IsValid :
    (f : ℕ) (s : Fibers) (c : Option (List ℕ)) → s.cache ≡ c → IsValid s → IsValid (run f s)
unfolding run get_fiber
run-IsValid f s none e v = absurd (v.has_cache e)
run-IsValid f s (some []) e v = record {
  owned = λ id. ground (arith, v.owned id, v.owned s.fib_cnt);
  has_cache = λ h. ground arith;
}
run-IsValid f s (some (i ∷ ids)) e v = record {
  owned = λ id. ground (arith, v.owned id, v.owned i);
  has_cache = λ h. ground arith;
}

wake-IsValid :
    (id : ℕ) (s s' : Fibers) (f : Option ℕ)
    → s.func id ≡ f
    → call id f s ≡ some s'
    → IsValid s
    → IsValid s'
wake-IsValid id s s' none e h v = absurd (ground arith)
wake-IsValid id s s' (some f) e h v = subst IsValid (some-injective _ _ h) (record {
  owned = λ j. ground (arith, v.owned j, v.owned id, v.has_cache, Option-cases s.cache);
  has_cache = λ n. ground (arith, v.has_cache, Option-cases s.cache);
})

step-IsValid : (s s' : Fibers) (e : Event) → step s e ≡ some s' → IsValid s → IsValid s'
unfolding step wake request_stop
step-IsValid s s' (runs f) h v =
    subst IsValid (some-injective _ _ h) (run-IsValid f s s.cache refl v)
step-IsValid s s' (wakes id) h v = wake-IsValid id s s' (s.func id) refl h v
step-IsValid s s' stops h v =
    subst IsValid (some-injective _ _ h) (record { owned = v.owned; has_cache = v.has_cache })

run_events-IsValid :
    (s s' : Fibers) (es : List Event) → run_events s es ≡ some s' → IsValid s → IsValid s'
unfolding run_events
run_events-IsValid s s' [] h v = subst IsValid (some-injective _ _ h) v
run_events-IsValid s s' (e ∷ es) h v = elim (Option-cases (step s e)) [
  | inl stuck ↦ absurd (ground arith)
  | inr (k, goes) ↦
      run_events-IsValid k s' es (sym (rw (goes, run_events) refl) ∙ h) (step-IsValid s k e goes v)
]

get_fiber-free :
    (s : Fibers) (id : ℕ) (c : Option (List ℕ))
    → s.cache ≡ c
    → IsValid s
    → (get_fiber s).1 ≡ some id
    → s.func id ≡ none
unfolding get_fiber
get_fiber-free s id none e v h = absurd (v.has_cache e)
get_fiber-free s id (some []) e v h = ground (arith, v.owned id, Option-cases (s.func id))
get_fiber-free s id (some (i ∷ ids)) e v h = ground (arith, v.owned id, Option-cases (s.func id))

-- After any calls of `run`, wake-ups of fibers and requests to stop on a registered thread, each
-- fiber that was created is once in the cache and has no function, or is not in the cache and has
-- one, and `get_fiber` gives only a fiber that has no function, so that `run` replaces none.
pub run_events-start :
    (es : List Event) (s : Fibers)
    → run_events start es ≡ some s
    → IsValid s × ((id : ℕ) → (get_fiber s).1 ≡ some id → s.func id ≡ none)
run_events-start es s h =
    let v = run_events-IsValid start s es h (
      unfold start in
      record { owned = λ id. ground arith; has_cache = λ n. absurd (ground arith) }) in
    (v, λ id e. get_fiber-free s id s.cache refl v e)
