-- ===== src/Router/Tests.antt =====
-- The router's theorems at a concrete table of routes; a handler is a number, 404 the default.
use petrel.Prelude.{ℕ, ◌≡◌, List, [], ◌∷◌, ◌++◌}
use petrel.Router.{Router, new_router, find_route, ok, err, insert_failed}
use petrel.Router.Spec.{longest, latest}
use petrel.Router.Routes.{add_routes, find_route-add_routes, add_routes_empty_path, NonEmptyPaths}
use petrel.Prelude.{get_or_default}

-- "/", "/a" and "/ab", the second one registered twice.
abbrev routes : List (List ℕ × ℕ)
routes =
    (b'/' ∷ [], 1)
    ∷ (b'/' ∷ b'a' ∷ [], 2)
    ∷ (b'/' ∷ b'a' ∷ b'b' ∷ [], 3)
    ∷ (b'/' ∷ b'a' ∷ [], 4)
    ∷ []

routes-NonEmptyPaths : NonEmptyPaths routes
routes-NonEmptyPaths = ((λ e. cc), ((λ e. cc), ((λ e. cc), ((λ e. cc), tt))))

find_route-add_routes_example :
    (r : Router ℕ) × (add_routes 0 (new_router 0 404) routes ≡ ok r)
    × ((p : List ℕ) → find_route r p ≡ get_or_default (longest (latest routes) p) 404)
find_route-add_routes_example = find_route-add_routes 0 404 routes routes-NonEmptyPaths

abbrev built : Router ℕ
built = find_route-add_routes_example.0

rejects_empty_path :
    add_routes {F = ℕ} 0 (new_router 0 404) (((b'/' ∷ [], 1) ∷ []) ++ ([], 2) ∷ [])
    ≡ err insert_failed
rejects_empty_path =
    add_routes_empty_path 0 (new_router 0 404) ((b'/' ∷ [], 1) ∷ []) [] 2 ((λ e. cc), tt)
