-- ===== src/Fibers/Tests.antt =====
-- Fibers at concrete events.
use petrel.Prelude.{ℕ, ◌≡◌, refl, List, [], ◌∷◌, some, none, get_or_default}
use petrel.Fibers.{Fibers, get_fiber, run, wake, request_stop}
use petrel.Fibers.Ownership.{
  Event, runs, wakes, stops, step, run_events, start, IsValid, run_events-start,
}

abbrev events : List Event
events = runs 10 ∷ runs 11 ∷ wakes 0 ∷ runs 12 ∷ wakes 1 ∷ stops ∷ runs 13 ∷ []

abbrev reached : Fibers
reached = get_or_default (run_events start events) start

events-run : run_events start events ≡ some reached
unfolding run_events step start run get_fiber wake request_stop
events-run = refl

places :
    (reached.cache ≡ some (1 ∷ [])) × (reached.called ≡ 11 ∷ 10 ∷ []) × (reached.detached ≡ 13 ∷ [])
unfolding run_events step start run get_fiber wake request_stop
places = (refl, refl, refl)

run_events-start_example :
    IsValid reached × ((id : ℕ) → (get_fiber reached).1 ≡ some id → reached.func id ≡ none)
run_events-start_example = run_events-start events reached events-run
