-- ===== src/LuaStates/Ownership/Runs.antt =====
-- What holds after any sequence of events.
use mathlib.Core.Path.{subst}
use mathlib.Core.Option.{some-injective}
use petrel.Prelude.{
  replicate, ℕ, zero, suc, ◌≡◌, refl, ap, inl, inr, Bool, List, [], ◌∷◌, Option, none, some, count,
  arith, Option-cases,
}
use petrel.LuaStates.{
  Manager, Creation, no_memory, load_fails, loads, ok, create_state, take_state, ready, get_state,
}
use petrel.LuaStates.Ownership.{count_local, World, Event, step, run, IsValid}
use petrel.LuaStates.Ownership.Caches.{Takes, take_state-Takes}
use petrel.LuaStates.Ownership.Steps.{step-IsValid}

-- A manager before any thread is registered, in a process of `threads` threads.
unfoldable pub start : ℕ → Bool → World
start threads dev_mode = record {
  manager = record {
    state_cache = [];
    state_cache_local = replicate threads none;
    objects = λ l. [];
    code = [];
    dev_mode = dev_mode;
    created = 0;
    closed = [];
  };
  held = [];
  lost = [];
}

pub count_local-replicate : (a n : ℕ) → count_local a (replicate n none) ≡ 0
count_local-replicate a zero = refl
count_local-replicate a (suc n) = omega (arith, count_local-replicate a n)

pub start-IsValid : (threads : ℕ) (dev_mode : Bool) → IsValid (start threads dev_mode)
unfolding start
start-IsValid threads dev_mode = record {
  owned = λ a. ground (arith, count_local-replicate a threads);
  clean = λ a h. refl;
}

pub run-IsValid : (w w' : World) (es : List Event) → IsValid w → run w es ≡ some w' → IsValid w'
unfolding run
run-IsValid w w' [] v e = subst IsValid (some-injective _ _ e) v
run-IsValid w w' (ev ∷ es) v e = elim (Option-cases (step w ev)) [
  | inl h ↦ absurd (ground arith)
  | inr (w₁, h) ↦ run-IsValid w₁ w' es (step-IsValid w w₁ ev v h) (ground arith)
]

-- After any events that the program can make happen, in any order, on any threads, each state that
-- was created is in exactly one place: the shared cache, the cache of one thread, a request, or
-- among those closed or lost; and the states in the caches have no library objects left.
pub run-start-IsValid :
    (threads : ℕ) (dev_mode : Bool) (es : List Event) (w : World)
    → run (start threads dev_mode) es ≡ some w
    → IsValid w
run-start-IsValid threads dev_mode es w e =
    run-IsValid (start threads dev_mode) w es (start-IsValid threads dev_mode) e

pub ready-unshared :
    (w : World) (creation : Creation) (reloads : Bool) (t : Manager × Option ℕ) (m : Manager)
    (l : ℕ)
    → IsValid w
    → Takes w.manager t
    → ready creation reloads t ≡ (m, ok l)
    → (count l w.held ≡ 0) × (m.objects l ≡ [])
unfolding create_state
ready-unshared w no_memory reloads (n, none) m l v k h = absurd (ground arith)
ready-unshared w load_fails reloads (n, none) m l v k h = absurd (ground arith)
ready-unshared w loads reloads (n, none) m l v k h = ground (arith, v.owned l, k.same_created)
ready-unshared w creation reloads (n, some j) m l v k h =
    ground (arith, k.moved l, v.owned l, v.clean l, ap (λ (o : ℕ → List ℕ). o l) k.same_objects)

-- A state that `get_state` returns is held by no other request and has no library objects of an
-- earlier one.
pub get_state-unshared :
    (threads : ℕ) (dev_mode : Bool) (es : List Event) (w : World) (thread : ℕ) (creation : Creation)
    (reloads : Bool) (m : Manager) (l : ℕ)
    → run (start threads dev_mode) es ≡ some w
    → get_state thread creation reloads w.manager ≡ (m, ok l)
    → (count l w.held ≡ 0) × (m.objects l ≡ [])
unfolding get_state
get_state-unshared threads dev_mode es w thread creation reloads m l e g =
    ready-unshared w creation reloads (take_state thread w.manager) m l
      (run-start-IsValid threads dev_mode es w e) (take_state-Takes thread w.manager) g
