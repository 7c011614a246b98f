-- ===== src/Workers.antt =====
-- The workers of the HTTP/1 server (src/core/worker.cpp) and their choice by `get_worker` of
-- src/core/server_impl.h: the fiber of an acceptor picks the next worker and gives it the session of the
-- client that it then accepts, and the worker's fiber starts it. A session is a number. A wake-up of the condition variable comes from `notify_one` only.
pub mod Sessions
mod Tests
use petrel.Prelude.{
  ℕ, ◌+◌, ◌%◌, ◌≡◌, Bool, true, false, List, [], ◌∷◌, ◌++◌, Option, none, some, ◌==◌, if◌then◌else◌,
}
use petrel.Metrics.Counter.{u64}

-- Where the fiber that starts sessions is in its loop.
pub data Phase : Type 0 where
  loops : Phase  -- before `m_new_session_cv.wait`
  waits : Phase
  wakes : Phase  -- behind it, with the lock

pub record Worker : Type 0 where
  pub new_sessions : List ℕ
  pub started : List ℕ
  pub phase : Phase

pub record Workers : Type 0 where
  pub workers : ℕ → Worker
  pub size : ℕ
  pub next_worker : ℕ
  pub chosen : ℕ → ℕ  -- the worker that the fiber of each acceptor has picked

abbrev pub set_worker : (ℕ → Worker) → ℕ → Worker → ℕ → Worker
set_worker ws i w other = if i == other then w else ws other

-- `next % m_workers.size()`, and the counter after it.
unfoldable pub get_worker : Workers → Workers × ℕ
get_worker p = (record p { next_worker = u64 (p.next_worker + 1) }, p.next_worker % p.size)

unfoldable pub add_session : ℕ → Worker → Worker
add_session session w = record w { new_sessions = w.new_sessions ++ session ∷ [] }

-- A notification when the fiber does not wait is lost.
abbrev pub woken : Phase → Phase
woken waits = wakes
woken loops = loops
woken wakes = wakes

unfoldable pub notify_one : Worker → Worker
notify_one w = record w { phase = woken w.phase }

abbrev pub set_chosen : (ℕ → ℕ) → ℕ → ℕ → ℕ → ℕ
set_chosen chosen a i other = if a == other then i else chosen other

-- The fiber of `do_accept` for the acceptor `a` picks a worker and then waits in `async_accept`.
abbrev pub picked : ℕ → Workers × ℕ → Workers
picked a (p, i) = record p { chosen = set_chosen p.chosen a i }

unfoldable pub pick : ℕ → Workers → Workers
pick a p = picked a (get_worker p)

-- The session of an accepted client goes to the worker that was picked.
unfoldable pub give : ℕ → ℕ → Workers → Workers
give i session p = record p {
  workers = set_worker p.workers i (notify_one (add_session session (p.workers i)));
}

-- `async_accept` comes back, with a client or with an error (`none`), and the loop goes on: the next
-- worker is picked in both cases.
unfoldable pub accept : ℕ → Option ℕ → Workers → Workers
accept a none p = pick a p
accept a (some session) p = pick a (give (p.chosen a) session p)

-- The fiber of `run` goes on by one step of its loop.
abbrev pub go_on : Phase → Worker → Worker
go_on loops w = record w { phase = waits }
go_on waits w = w
go_on wakes w = record { new_sessions = []; started = w.started ++ w.new_sessions; phase = loops }

unfoldable pub proceed : ℕ → Workers → Workers
proceed i p = record p {
  workers = set_worker p.workers i (go_on (p.workers i).phase (p.workers i));
}
