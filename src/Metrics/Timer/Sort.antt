-- ===== src/Metrics/Timer/Sort.antt =====
-- `std::sort`: the sorted list, with the same samples.
use petrel.Prelude.{ℕ, suc, ◌+◌, ◌≤◌, ◌≡◌, refl, Bool, List, [], ◌∷◌, length, arith, if◌then◌else◌}
use petrel.Metrics.Timer.{insert_sorted, sort}

-- Every element is at least `n`.
abbrev pub AllFrom : ℕ → List ℕ → Type 0
AllFrom n [] = Unit
AllFrom n (t ∷ ts) = (n ≤ t) × AllFrom n ts

abbrev pub IsSorted : List ℕ → Type 0
IsSorted [] = Unit
IsSorted (t ∷ ts) = AllFrom t ts × IsSorted ts

pub AllFrom-mono : (m n : ℕ) (ts : List ℕ) → m ≤ n → AllFrom n ts → AllFrom m ts
AllFrom-mono m n [] h a = tt
AllFrom-mono m n (t ∷ ts) h a = (omega arith, AllFrom-mono m n ts h a.1)

insert_sorted-AllFrom :
    (n t : ℕ) (ts : List ℕ) → n ≤ t → AllFrom n ts → AllFrom n (insert_sorted t ts)
unfolding insert_sorted
insert_sorted-AllFrom n t [] h a = (h, tt)
insert_sorted-AllFrom n t (u ∷ us) h a = ground (arith, insert_sorted-AllFrom n t us h a.1)

insert_sorted-IsSorted : (t : ℕ) (ts : List ℕ) → IsSorted ts → IsSorted (insert_sorted t ts)
unfolding insert_sorted
insert_sorted-IsSorted t [] s = (tt, tt)
insert_sorted-IsSorted t (u ∷ us) s =
    ground
      (arith, insert_sorted-IsSorted t us s.1, insert_sorted-AllFrom u t us, AllFrom-mono t u us)

pub sort-IsSorted : (ts : List ℕ) → IsSorted (sort ts)
unfolding sort
sort-IsSorted [] = tt
sort-IsSorted (t ∷ ts) = insert_sorted-IsSorted t (sort ts) (sort-IsSorted ts)

-- How many elements pass a test, and their sum, do not depend on the order.
abbrev pub count_if : (ℕ → Bool) → List ℕ → ℕ
count_if p [] = 0
count_if p (t ∷ ts) = (if p t then 1 else 0) + count_if p ts

abbrev pub sum : List ℕ → ℕ
sum [] = 0
sum (t ∷ ts) = t + sum ts

count_if-insert_sorted :
    (p : ℕ → Bool) (t : ℕ) (ts : List ℕ) → count_if p (insert_sorted t ts) ≡ count_if p (t ∷ ts)
unfolding insert_sorted
count_if-insert_sorted p t [] = refl
count_if-insert_sorted p t (u ∷ us) = ground (arith, count_if-insert_sorted p t us)

pub count_if-sort : (p : ℕ → Bool) (ts : List ℕ) → count_if p (sort ts) ≡ count_if p ts
unfolding sort
count_if-sort p [] = refl
count_if-sort p (t ∷ ts) = omega (arith, count_if-insert_sorted p t (sort ts), count_if-sort p ts)

length-insert_sorted : (t : ℕ) (ts : List ℕ) → length (insert_sorted t ts) ≡ suc (length ts)
unfolding insert_sorted
length-insert_sorted t [] = refl
length-insert_sorted t (u ∷ us) = ground (arith, length-insert_sorted t us)

pub length-sort : (ts : List ℕ) → length (sort ts) ≡ length ts
unfolding sort
length-sort [] = refl
length-sort (t ∷ ts) = omega (arith, length-insert_sorted t (sort ts), length-sort ts)

sum-insert_sorted : (t : ℕ) (ts : List ℕ) → sum (insert_sorted t ts) ≡ t + sum ts
unfolding insert_sorted
sum-insert_sorted t [] = refl
sum-insert_sorted t (u ∷ us) = ground (arith, sum-insert_sorted t us)

pub sum-sort : (ts : List ℕ) → sum (sort ts) ≡ sum ts
unfolding sort
sum-sort [] = refl
sum-sort (t ∷ ts) = omega (arith, sum-insert_sorted t (sort ts), sum-sort ts)
