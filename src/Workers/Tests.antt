-- ===== src/Workers/Tests.antt =====
-- Two workers with three clients.
use petrel.Prelude.{◌≡◌, refl, List, [], ◌∷◌, ◌++◌, ◌%◌, some, none}
use petrel.Workers.{
  Worker, Workers, loops, get_worker, add_session, notify_one, pick, give, accept, proceed,
}
use petrel.Workers.Sessions.{Event, accepts, proceeds, step, run, share, all_of, run-all_of}

abbrev idle : Worker
idle = record { new_sessions = []; started = []; phase = loops }

abbrev two : Workers
two = record { workers = λ i. idle; size = 2; next_worker = 2; chosen = λ a. a % 2 }

-- Two acceptors have picked the workers 0 and 1; the second accept fails.
abbrev events : List Event
events =
    proceeds 0
    ∷ accepts 0 (some 7)
    ∷ proceeds 0
    ∷ accepts 1 none
    ∷ accepts 1 (some 8)
    ∷ accepts 0 (some 9)
    ∷ proceeds 1
    ∷ []

sessions :
    (((run two events).workers 0).started ≡ 7 ∷ [])
    × (((run two events).workers 0).new_sessions ≡ 9 ∷ [])
    × (((run two events).workers 1).new_sessions ≡ 8 ∷ [])
unfolding run step accept pick give get_worker add_session notify_one proceed
sessions = (refl, refl, refl)

run-all_of_example : all_of ((run two events).workers 0) ≡ [] ++ share 2 0 2 (λ a. a) events
run-all_of_example = run-all_of two (λ a. a) 0 events (λ a. refl)
