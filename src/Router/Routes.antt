-- ===== src/Router/Routes.antt =====
-- The router against its specification, after any registrations.
use petrel.Prelude.{
  ℕ, ◌≡◌, refl, ◌∙◌, ◌≢◌, List, [], ◌∷◌, ◌++◌, Option, none, some, arith, or_else, get_or_default,
  if◌then◌else◌,
}
use petrel.Router.{
  Router, Result, ok, err, insert_failed, insert, insert_from, new_router, add_route, find_route,
}
use petrel.Router.Spec.{path_eq, longest, latest, longest-congr, longest_prefix, longest-none}
use petrel.Router.Entries.{entry, entry_from, entry-new_block, entry-insert_from}
use petrel.Router.Find.{find-longest}

-- Registrations in order; the first that throws ends them.
unfoldable pub add_routes : {F : Type 0} → F → Router F → List (List ℕ × F) → Result (Router F)
add_routes empty r [] = ok r
add_routes empty r ((path, f) ∷ rs) = elim (add_route empty r path f) [
  | ok r' ↦ add_routes empty r' rs
  | err e ↦ err e
]

-- No path is empty.
abbrev pub NonEmptyPaths : {F : Type 0} → List (List ℕ × F) → Type 0
NonEmptyPaths [] = Unit
NonEmptyPaths ((path, f) ∷ rs) = (path ≢ []) × NonEmptyPaths rs

-- The router holds at every non-empty path what the table `g` says.
record Holds {F : Type 0} (g : List ℕ → Option F) (d : F) (r : Router F) : Type 0 where
  entries : (c : ℕ) (q : List ℕ) → entry_from r.set c q ≡ g (c ∷ q)
  fallback : r.default_func ≡ d

Holds-congr :
    {F : Type 0} (g g' : List ℕ → Option F) (d : F) (r : Router F)
    → ((c : ℕ) (q : List ℕ) → g (c ∷ q) ≡ g' (c ∷ q))
    → Holds g d r
    → Holds g' d r
Holds-congr g g' d r e h = record { entries = λ c q. h.entries c q ∙ e c q; fallback = h.fallback }

module _ {F : Type 0} (empty : F) where
  new_router-Holds : (d : F) → Holds (λ p. none) d (new_router empty d)
  unfolding new_router
  new_router-Holds d = record { entries = λ c q. entry-new_block empty c q; fallback = refl }

  insert_from-Holds :
      (g : List ℕ → Option F) (d : F) (r : Router F) (c : ℕ) (q : List ℕ) (f : F)
      → Holds g d r
      → Holds
          (λ p. if path_eq (c ∷ q) p then some f else g p)
          d
          (record r { set = insert_from empty r.set c q f })
  insert_from-Holds g d r c q f h = record {
    entries = λ b p. ground (arith, entry-insert_from empty r.set c q f b p, h.entries b p);
    fallback = h.fallback;
  }

  -- A table extended by registrations.
  abbrev extend : (List ℕ → Option F) → List (List ℕ × F) → List ℕ → Option F
  extend g rs p = or_else (latest rs p) (g p)

  add_routes-Holds :
      (g : List ℕ → Option F) (d : F) (r : Router F) (rs : List (List ℕ × F))
      → NonEmptyPaths rs
      → Holds g d r
      → (r' : Router F) × (add_routes empty r rs ≡ ok r') × Holds (extend g rs) d r'
  unfolding add_routes add_route insert
  add_routes-Holds g d r [] n h = (r, refl, h)
  add_routes-Holds g d r (([], f) ∷ rs) n h = absurd (n.0 refl)
  add_routes-Holds g d r ((c ∷ q, f) ∷ rs) n h =
      let g' : List ℕ → Option F = λ p. if path_eq (c ∷ q) p then some f else g p in
      let (r', done, holds) =
        add_routes-Holds g' d (record r { set = insert_from empty r.set c q f }) rs n.1
          (insert_from-Holds g d r c q f h) in
      (
        r',
        done,
        Holds-congr (extend g' rs) (extend g ((c ∷ q, f) ∷ rs)) d r' (λ b p. ground arith) holds,
      )

  find_route-Holds :
      (g : List ℕ → Option F) (d : F) (r : Router F)
      → Holds g d r
      → (p : List ℕ) → find_route r p ≡ get_or_default (longest g p) d
  unfolding find_route
  find_route-Holds g d r h p =
      ground (arith, find-longest r.set p, longest-congr (entry r.set) g p h.entries)

  -- Registering routes with non-empty paths in a new router succeeds, and the router then answers
  -- every path with the handler registered last for the longest registered prefix of the path, or
  -- with the default handler if no registered path is a prefix.
  pub find_route-add_routes :
      (d : F) (rs : List (List ℕ × F))
      → NonEmptyPaths rs
      → (r : Router F) × (add_routes empty (new_router empty d) rs ≡ ok r)
        × ((p : List ℕ) → find_route r p ≡ get_or_default (longest (latest rs) p) d)
  find_route-add_routes d rs n =
      let (r, done, h) =
        add_routes-Holds (λ p. none) d (new_router empty d) rs n (new_router-Holds d) in
      (
        r,
        done,
        λ p.
            find_route-Holds (latest rs) d r
              (Holds-congr (extend (λ q. none) rs) (latest rs) d r (λ b q. ground arith) h) p,
      )

  -- A path that extends a registered path is answered with the handler registered last for it,
  -- unless a longer registered path is a prefix of the request's path too.
  pub find_route_prefix :
      (d : F) (rs : List (List ℕ × F)) (r : Router F) (c : ℕ) (q rest : List ℕ) (f : F)
      → NonEmptyPaths rs
      → add_routes empty (new_router empty d) rs ≡ ok r
      → latest rs (c ∷ q) ≡ some f
      → ((b : ℕ) (s t : List ℕ) → rest ≡ (b ∷ s) ++ t → latest rs ((c ∷ q) ++ b ∷ s) ≡ none)
      → find_route r ((c ∷ q) ++ rest) ≡ f
  find_route_prefix d rs r c q rest f n done last longer =
      let (r', done', found) = find_route-add_routes d rs n in
      ground (arith, found ((c ∷ q) ++ rest), longest_prefix (latest rs) c q rest f last longer)

  -- A path with no registered prefix is answered with the default handler.
  pub find_route_default :
      (d : F) (rs : List (List ℕ × F)) (r : Router F) (p : List ℕ)
      → NonEmptyPaths rs
      → add_routes empty (new_router empty d) rs ≡ ok r
      → ((b : ℕ) (s t : List ℕ) → p ≡ (b ∷ s) ++ t → latest rs (b ∷ s) ≡ none)
      → find_route r p ≡ d
  find_route_default d rs r p n done unregistered =
      let (r', done', found) = find_route-add_routes d rs n in
      ground (arith, found p, longest-none (latest rs) p unregistered)

  -- Registrations end with the exception of `insert` at the first route whose path is empty.
  pub add_routes_empty_path :
      (r : Router F) (rs later : List (List ℕ × F)) (f : F)
      → NonEmptyPaths rs
      → add_routes empty r (rs ++ ([], f) ∷ later) ≡ err insert_failed
  unfolding add_routes add_route insert
  add_routes_empty_path r [] later f n = refl
  add_routes_empty_path r (([], g) ∷ rs) later f n = absurd (n.0 refl)
  add_routes_empty_path r ((c ∷ q, g) ∷ rs) later f n =
      add_routes_empty_path (record r { set = insert_from empty r.set c q g }) rs later f n.1
