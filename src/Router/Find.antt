-- ===== src/Router/Find.antt =====
-- `find` looks up the longest path of the trie that is a prefix of the request's path.
use petrel.Prelude.{
  ℕ, ◌≡◌, refl, List, [], ◌∷◌, Option, none, some, arith, or_else, if◌then◌else◌, inl, inr, ◌⊎◌,
}
use petrel.Router.{Node, Next, null, block, term, func, next, find_from, find, ok, err, find_failed}
use petrel.Router.Spec.{longest, longest-none, longest-congr}
use petrel.Router.Entries.{entry, entry_from}

module _ {F : Type 0} where
  abbrev pub found_value : Option (Node F) → Option F
  found_value none = none
  found_value (some n) = some (func n)

  Next-cases : (n : Next F) → (n ≡ null) ⊎ ((t : ℕ → Node F) × (n ≡ block t))
  Next-cases null = inl refl
  Next-cases (block t) = inr (t, refl)

  -- Below a node with no array nothing is registered.
  below_null :
      (t : ℕ → Node F) (c : ℕ) (r : List ℕ)
      → next (t c) ≡ null
      → longest (λ q. entry t (c ∷ q)) r ≡ none
  unfolding entry_from
  below_null t c r e = longest-none (λ q. entry t (c ∷ q)) r (λ d s u h. rw (e, entry_from))

  below_block :
      (t : ℕ → Node F) (c : ℕ) (r : List ℕ) (u : ℕ → Node F)
      → next (t c) ≡ block u
      → longest (λ q. entry t (c ∷ q)) r ≡ longest (entry u) r
  unfolding entry_from
  below_block t c r u e =
      longest-congr (λ q. entry t (c ∷ q)) (entry u) r (λ d s. rw (e, entry_from))

  pub find_from-longest :
      (t : ℕ → Node F) (p : List ℕ) (found : Option (Node F))
      → found_value (find_from t p found) ≡ or_else (longest (entry t) p) (found_value found)
  unfolding find_from entry_from
  find_from-longest t [] found = refl
  find_from-longest t (c ∷ r) found = elim (Next-cases (next (t c))) [
    | inl e ↦ ground (arith, below_null t c r e)
    | inr (u, e) ↦ ground (
      arith,
      below_block t c r u e,
      find_from-longest u r (if term (t c) then some (t c) else found),
    )
  ]

  -- The result of `find`, as the longest entry or the exception.
  pub find-longest :
      (t : ℕ → Node F) (p : List ℕ)
      → find t p ≡ elim (longest (entry t) p) [ none ↦ err find_failed | some f ↦ ok f ]
  unfolding find
  find-longest t p = ground (arith, find_from-longest t p none)
