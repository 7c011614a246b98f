-- ===== src/Workers/Sessions.antt =====
-- Which worker gets which session.
use mathlib.Core.List.{append_assoc, append-nil}
use petrel.Prelude.{
  ℕ, ◌+◌, ◌%◌, ◌≡◌, refl, sym, ap, ◌∙◌, List, [], ◌∷◌, Option, none, some, ◌++◌, ◌==◌,
  if◌then◌else◌, arith, Bool-cases, inl, inr,
}
use petrel.Metrics.Counter.{u64}
use petrel.Workers.{
  Phase, loops, waits, wakes, Worker, Workers, get_worker, add_session, notify_one, set_chosen,
  pick, give, accept, go_on, proceed,
}

pub data Event : Type 0 where
  starts : ℕ → Event  -- the fiber of an acceptor begins
  accepts : ℕ → Option ℕ → Event  -- its `async_accept` comes back
  proceeds : ℕ → Event

unfoldable pub step : Workers → Event → Workers
step p (starts a) = pick a p
step p (accepts a result) = accept a result p
step p (proceeds i) = proceed i p

unfoldable pub run : Workers → List Event → Workers
run p [] = p
run p (e ∷ es) = run (step p e) es

-- The sessions of the worker `i` among those that are accepted: `next` is how many workers were
-- picked, the worker picked as number `k` is `k % size`, and `turn a` is the number of the last pick
-- of the acceptor `a`.
abbrev pub share : ℕ → ℕ → ℕ → (ℕ → ℕ) → List Event → List ℕ
share size i next turn [] = []
share size i next turn (starts a ∷ es) = share size i (u64 (next + 1)) (set_chosen turn a next) es
share size i next turn (accepts a none ∷ es) =
    share size i (u64 (next + 1)) (set_chosen turn a next) es
share size i next turn (accepts a (some session) ∷ es) =
    (if turn a % size == i then session ∷ [] else [])
    ++ share size i (u64 (next + 1)) (set_chosen turn a next) es
share size i next turn (proceeds j ∷ es) = share size i next turn es

-- The sessions that a worker has started or has still to start.
abbrev pub all_of : Worker → List ℕ
all_of w = w.started ++ w.new_sessions

go_on-all_of : (f : Phase) (w : Worker) → all_of (go_on f w) ≡ all_of w
go_on-all_of loops w = refl
go_on-all_of waits w = refl
go_on-all_of wakes w = append-nil (w.started ++ w.new_sessions)

proceed-all_of : (p : Workers) (i j : ℕ) → all_of ((proceed j p).workers i) ≡ all_of (p.workers i)
unfolding proceed
proceed-all_of p i j = elim (Bool-cases (j == i)) [
  | inl e ↦
      let same : j ≡ i = ground arith in
      rw e (go_on-all_of (p.workers j).phase (p.workers j) ∙ ap (λ k. all_of (p.workers k)) same)
  | inr e ↦ rw e refl
]

give-all_of :
    (p : Workers) (i j session : ℕ)
    → all_of ((give j session p).workers i)
      ≡ all_of (p.workers i) ++ (if j == i then session ∷ [] else [])
unfolding give notify_one add_session
give-all_of p i j session = elim (Bool-cases (j == i)) [
  | inl e ↦
      let same : j ≡ i = ground arith in
      rw e (
        sym (append_assoc (p.workers j).started (p.workers j).new_sessions (session ∷ []))
        ∙ ap (λ k. all_of (p.workers k) ++ session ∷ []) same)
  | inr e ↦ rw e (sym (append-nil (all_of (p.workers i))))
]

-- The acceptors wait with the workers of their turns.
abbrev pub InTurn : Workers → (ℕ → ℕ) → Type 0
InTurn p turn = (a : ℕ) → p.chosen a ≡ turn a % p.size

pick-InTurn :
    (p : Workers) (a : ℕ) (turn : ℕ → ℕ)
    → InTurn p turn
    → InTurn (pick a p) (set_chosen turn a p.next_worker)
unfolding pick get_worker
pick-InTurn p a turn h b = elim (Bool-cases (a == b)) [ inl e ↦ rw e refl | inr e ↦ rw e (h b) ]

given-InTurn :
    (p : Workers) (i session a : ℕ) (turn : ℕ → ℕ)
    → InTurn p turn
    → InTurn (pick a (give i session p)) (set_chosen turn a p.next_worker)
unfolding give
given-InTurn p i session a turn h = pick-InTurn (give i session p) a turn h

proceed-InTurn : (p : Workers) (j : ℕ) (turn : ℕ → ℕ) → InTurn p turn → InTurn (proceed j p) turn
unfolding proceed
proceed-InTurn p j turn h = h

-- From a state in which each acceptor waits with the worker of its turn: whatever the acceptors get,
-- clients or errors, in any order, and however the workers' fibers go on, each worker has started, or
-- still holds, exactly the sessions of the accepts for which it was picked, each once and in the order
-- in which they were accepted. The picks are dealt round robin, one when an acceptor begins and one
-- after each accept, failed or not.
pub run-all_of :
    (p : Workers) (turn : ℕ → ℕ) (i : ℕ) (es : List Event)
    → InTurn p turn
    → all_of ((run p es).workers i) ≡ all_of (p.workers i) ++ share p.size i p.next_worker turn es
unfolding run step accept
run-all_of p turn i [] h = sym (append-nil (all_of (p.workers i)))
run-all_of p turn i (starts a ∷ es) h =
    run-all_of (pick a p) (set_chosen turn a p.next_worker) i es (pick-InTurn p a turn h)
    ∙ unfold pick get_worker in refl
run-all_of p turn i (accepts a none ∷ es) h =
    run-all_of (pick a p) (set_chosen turn a p.next_worker) i es (pick-InTurn p a turn h)
    ∙ unfold pick get_worker in refl
run-all_of p turn i (accepts a (some session) ∷ es) h =
    let q = give (p.chosen a) session p in
    let rest = share p.size i (u64 (p.next_worker + 1)) (set_chosen turn a p.next_worker) es in
    run-all_of (pick a q) (set_chosen turn a p.next_worker) i es
      (given-InTurn p (p.chosen a) session a turn h)
    ∙ unfold pick get_worker give in
      ap (λ l. l ++ rest) (unfold give in give-all_of p i (p.chosen a) session)
      ∙ append_assoc (all_of (p.workers i)) (if p.chosen a == i then session ∷ [] else []) rest
      ∙ ap (λ k. all_of (p.workers i) ++ ((if k == i then session ∷ [] else []) ++ rest)) (h a)
run-all_of p turn i (proceeds j ∷ es) h =
    run-all_of (proceed j p) turn i es (proceed-InTurn p j turn h)
    ∙ unfold proceed in ap (λ l. l ++ share p.size i p.next_worker turn es) (proceed-all_of p i j)
