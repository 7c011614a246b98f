-- ===== src/Setup/Threads.antt =====
-- What stopping, joining and starting do to the threads of the workers and of the registry.
use mathlib.Core.Path.{subst}
use mathlib.Core.Option.{some-injective}
use petrel.Prelude.{
  ℕ, zero, suc, ◌≡◌, refl, Bool, true, false, List, [], ◌∷◌, ◌++◌, map, Option, none, some,
  if◌then◌else◌, arith, replicate, set, get_elem?,
}
use petrel.Setup.{Life, start_thread, stop_thread, join_thread, join_all, add_endpoint, new_life}

-- A thread that has ended with its acceptors closed.
abbrev pub Ended : Life → Type 0
Ended w = (w.acceptors ≡ []) × (w.stop ≡ true) × (w.running ≡ false)

abbrev pub AllEnded : List Life → Type 0
AllEnded [] = Unit
AllEnded (w ∷ ws) = Ended w × AllEnded ws

-- A thread that `stop` was not called for.
abbrev pub Fresh : Life → Type 0
Fresh w = (w.stop ≡ false) × (w.io_stopped ≡ false)

abbrev pub AllFresh : List Life → Type 0
AllFresh [] = Unit
AllFresh (w ∷ ws) = Fresh w × AllFresh ws

pub join_thread-Ended :
    (w : Life) → Fresh w → (v : Life) × (join_thread (stop_thread w) ≡ some v) × Ended v
unfolding join_thread stop_thread
join_thread-Ended w f = (ended, rw f.0 (by_running w.running), (refl, refl, refl))
  where
    ended : Life
    ended = record { acceptors = []; stop = true; running = false; io_stopped = true }

    by_running :
        (runs : Bool)
        → ◌≡◌ {A = Option Life}
            (if runs
              then some (record ended { running = false })
              else some (record ended { running = runs }))
            (some ended)
    by_running true = refl
    by_running false = refl

pub join_all-AllEnded :
    (ws : List Life)
    → AllFresh ws
    → (vs : List Life) × (join_all (map stop_thread ws) ≡ some vs) × AllEnded vs
join_all-AllEnded [] f = ([], refl, tt)
join_all-AllEnded (w ∷ ws) f =
    let (v, e, ended) = join_thread-Ended w f.0 in
    let (vs, es, all_ended) = join_all-AllEnded ws f.1 in
    (v ∷ vs, rw (join_all, e, es), (ended, all_ended))

pub replicate-AllFresh : (n : ℕ) → AllFresh (replicate n new_life)
unfolding new_life
replicate-AllFresh zero = tt
replicate-AllFresh (suc n) = ((refl, refl), replicate-AllFresh n)

pub map-AllFresh : (ws : List Life) → AllFresh ws → AllFresh (map start_thread ws)
unfolding start_thread
map-AllFresh [] f = tt
map-AllFresh (w ∷ ws) f = (f.0, map-AllFresh ws f.1)

set-AllFresh : (ws : List Life) (i : ℕ) (v : Life) → AllFresh ws → Fresh v → AllFresh (set ws i v)
set-AllFresh [] i v f g = tt
set-AllFresh (w ∷ ws) zero v f g = (g, f.1)
set-AllFresh (w ∷ ws) (suc i) v f g = (f.0, set-AllFresh ws i v f.1 g)

element-Fresh :
    (ws : List Life) (i : ℕ) (w : Life) → AllFresh ws → get_elem? ws i ≡ some w → Fresh w
element-Fresh [] i w f e = absurd (ground (arith, e))
element-Fresh (v ∷ ws) zero w f e = subst Fresh (some-injective v w e) f.0
element-Fresh (v ∷ ws) (suc i) w f e = element-Fresh ws i w f.1 e

pub add_endpoint-AllFresh :
    (worker endpoint : ℕ) (ws : List Life)
    → AllFresh ws
    → AllFresh (add_endpoint worker endpoint ws)
unfolding add_endpoint
add_endpoint-AllFresh worker endpoint ws f =
    by_found (get_elem? ws worker) (λ w e. element-Fresh ws worker w f e)
  where
    by_found :
        (o : Option Life)
        → ((w : Life) → o ≡ some w → Fresh w)
        → AllFresh (elim o [
          | none ↦ ws
          | some w ↦ set ws worker (record w { acceptors = w.acceptors ++ endpoint ∷ [] })
        ])
    by_found none h = f
    by_found (some w) h = set-AllFresh ws worker _ f (h w refl)
