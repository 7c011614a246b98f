-- ===== src/Resolver/Tests.antt =====
-- The cache at concrete calls.
use petrel.Prelude.{ℕ, ◌≡◌, refl, List, [], ◌∷◌, none}
use petrel.Maps.{lookup, assign, erase}
use petrel.Resolver.{check, store}
use petrel.Resolver.Age.{Event, checks, stores, step, run, Answered, check-Answered}

abbrev events : List (Event ℕ)
events = checks "h:80" 1000 ∷ stores "h:80" 1000 (1 ∷ 2 ∷ []) ∷ checks "h:80" 1299 ∷ []

check-Answered_example : Answered "h:80" 1299 (1 ∷ 2 ∷ []) events
unfolding run step check store lookup assign erase
check-Answered_example = check-Answered events "h:80" 1299 (1 ∷ 2 ∷ []) refl

expires : (check "h:80" 1300 (run [] events)).1 ≡ none
unfolding run step check store lookup assign erase
expires = refl
