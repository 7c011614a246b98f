-- ===== src/Router/Entries.antt =====
-- What a trie holds at each path, and how `insert` changes it.
use petrel.Prelude.{ℕ, ◌≡◌, refl, List, [], ◌∷◌, Option, none, some, arith, if◌then◌else◌, ==_iff}
use petrel.Router.{Node, Next, null, block, term, func, next, new_block, children, insert_from}
use petrel.Router.Spec.{path_eq}

module _ {F : Type 0} where
  abbrev value : Node F → Option F
  value n = if term n then some (func n) else none

  -- The handler that a terminal node holds at the end of the path `c ∷ r`.
  unfoldable pub entry_from : (ℕ → Node F) → ℕ → List ℕ → Option F
  entry_from t c [] = value (t c)
  entry_from t c (d ∷ r) = elim (next (t c)) [ null ↦ none | block t' ↦ entry_from t' d r ]

  abbrev pub entry : (ℕ → Node F) → List ℕ → Option F
  entry t [] = none
  entry t (c ∷ r) = entry_from t c r

  pub entry-new_block : (empty : F) (c : ℕ) (r : List ℕ) → entry_from (new_block empty) c r ≡ none
  unfolding entry_from
  entry-new_block empty c [] = refl
  entry-new_block empty c (d ∷ r) = refl

  abbrev below : Next F → ℕ → List ℕ → Option F
  below n d r = elim n [ null ↦ none | block t ↦ entry_from t d r ]

  -- The array that `insert` goes on with has the entries below the node.
  entry-children :
      (empty : F) (n : Next F) (d : ℕ) (r : List ℕ)
      → entry_from (children empty n) d r ≡ below n d r
  unfolding children
  entry-children empty null d r = entry-new_block empty d r
  entry-children empty (block t) d r = refl

  pub entry-insert_from :
      (empty : F) (t : ℕ → Node F) (c : ℕ) (r : List ℕ) (f : F) (d : ℕ) (q : List ℕ)
      → entry_from (insert_from empty t c r f) d q
        ≡ (if path_eq (c ∷ r) (d ∷ q) then some f else entry_from t d q)
  unfolding entry_from insert_from
  entry-insert_from empty t c [] f d [] = ground arith
  entry-insert_from empty t c [] f d (e ∷ q) = ground (arith, ==_iff c d)
  entry-insert_from empty t c (b ∷ r) f d [] = ground (arith, ==_iff c d)
  entry-insert_from empty t c (b ∷ r) f d (e ∷ q) = ground (
    arith,
    ==_iff c d,
    entry-insert_from empty (children empty (next (t c))) b r f e q,
    entry-children empty (next (t c)) e q,
    ==_iff b e,
  )
