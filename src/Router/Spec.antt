-- ===== src/Router/Spec.antt =====
-- What a router promises, said without the trie: routes are a list of pairs, the last
-- registration of a path counts, and a request goes to the longest registered prefix.
use petrel.Prelude.{
  ℕ, ◌≡◌, refl, ap, Bool, true, false, ◌&&◌, ◌++◌, List, [], ◌∷◌, Option, none, some, ◌==◌, arith,
  or_else, if◌then◌else◌,
}

abbrev pub path_eq : List ℕ → List ℕ → Bool
path_eq [] [] = true
path_eq [] (d ∷ q) = false
path_eq (c ∷ p) [] = false
path_eq (c ∷ p) (d ∷ q) = c == d && path_eq p q

pub path_eq-eq : (p q : List ℕ) → path_eq p q ≡ true → p ≡ q
path_eq-eq [] [] h = refl
path_eq-eq [] (d ∷ q) h = cc
path_eq-eq (c ∷ p) [] h = cc
path_eq-eq (c ∷ p) (d ∷ q) h = ground (arith, path_eq-eq p q)

pub path_eq_refl : (p : List ℕ) → path_eq p p ≡ true
path_eq_refl [] = refl
path_eq_refl (c ∷ p) = ground (arith, path_eq_refl p)

module _ {A : Type 0} where
  -- The value at the longest non-empty prefix of a path that has one.
  abbrev pub longest : (List ℕ → Option A) → List ℕ → Option A
  longest g [] = none
  longest g (c ∷ r) = or_else (longest (λ q. g (c ∷ q)) r) (g (c ∷ []))

  -- The last registration of exactly this path.
  abbrev pub latest : List (List ℕ × A) → List ℕ → Option A
  latest [] p = none
  latest ((q, f) ∷ rs) p = or_else (latest rs p) (if path_eq q p then some f else none)

  -- `longest` reads its table only at non-empty paths.
  pub longest-congr :
      (g h : List ℕ → Option A) (p : List ℕ)
      → ((c : ℕ) (r : List ℕ) → g (c ∷ r) ≡ h (c ∷ r))
      → longest g p ≡ longest h p
  longest-congr g h [] e = refl
  longest-congr g h (c ∷ r) e =
      rw (e c [], longest-congr (λ q. g (c ∷ q)) (λ q. h (c ∷ q)) r (λ d s. e c (d ∷ s)))

  pub longest-none :
      (g : List ℕ → Option A) (p : List ℕ)
      → ((d : ℕ) (s t : List ℕ) → p ≡ (d ∷ s) ++ t → g (d ∷ s) ≡ none)
      → longest g p ≡ none
  longest-none g [] e = refl
  longest-none g (c ∷ r) e =
      rw (longest-none (λ q. g (c ∷ q)) r (λ d s t h. e c (d ∷ s) t (ap (◌∷◌ c) h)), e c [] r refl)

  -- A registered prefix that no longer registered prefix extends is the one found.
  pub longest_prefix :
      (g : List ℕ → Option A) (c : ℕ) (q rest : List ℕ) (f : A)
      → g (c ∷ q) ≡ some f
      → ((d : ℕ) (s t : List ℕ) → rest ≡ (d ∷ s) ++ t → g ((c ∷ q) ++ d ∷ s) ≡ none)
      → longest g ((c ∷ q) ++ rest) ≡ some f
  longest_prefix g c [] rest f e more = rw (longest-none (λ q. g (c ∷ q)) rest more, e)
  longest_prefix g c (d ∷ q) rest f e more = rw (longest_prefix (λ p. g (c ∷ p)) d q rest f e more)
