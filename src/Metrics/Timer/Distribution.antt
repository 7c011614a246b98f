-- ===== src/Metrics/Timer/Distribution.antt =====
-- The histogram of a buffer of samples against what the samples are.
use petrel.Prelude.{
  ℕ, zero, suc, ◌+◌, ◌*◌, ◌≤◌, ◌<◌, ◌≡◌, ◌≢◌, refl, sym, ap, ◌∙◌, inl, List, [], ◌∷◌, some, ◌==◌,
  ltb, length, get_elem?, arith, ◌&&◌,
}
use native.Mathlib.Nat.{zero-add}
use petrel.Metrics.Timer.{
  Histogram, bins, new_histogram, sort, sum_from, front, back, make_histogram,
}
use petrel.Metrics.Timer.Sort.{
  AllFrom, IsSorted, sort-IsSorted, count_if, count_if-sort, sum, sum-sort, length-sort,
}
use petrel.Metrics.Timer.Bins.{bin_count, lowers, in_bin, IsClear, distribute-Added}

pub length-bins : (n lower size : ℕ) → length (bins n lower size) ≡ n
unfolding bins
length-bins zero lower size = refl
length-bins (suc n) lower size = ap suc (length-bins n (lower + size) size)

lowers-bins :
    (n lower size j : ℕ)
    → j < n
    → get_elem? (lowers (bins n lower size)) j ≡ some (lower + j * size)
unfolding bins
lowers-bins zero lower size j h = elim h [ ]
lowers-bins (suc n) lower size zero h = ground arith
lowers-bins (suc n) lower size (suc j) h =
    ground (arith, lowers-bins n (lower + size) size j (omega arith))

pub bin_count-bins : (n lower size j : ℕ) → bin_count (bins n lower size) j ≡ 0
unfolding bins
bin_count-bins zero lower size j = refl
bin_count-bins (suc n) lower size zero = refl
bin_count-bins (suc n) lower size (suc j) = bin_count-bins n (lower + size) size j

sum_from-sum : (s : ℕ) (ts : List ℕ) → sum_from s ts ≡ s + sum ts
unfolding sum_from
sum_from-sum s [] = omega arith
sum_from-sum s (t ∷ ts) = omega (arith, sum_from-sum (s + t) ts)

-- `m` is the least of the samples.
abbrev pub IsLeast : ℕ → List ℕ → Type 0
IsLeast m ts = (count_if (λ t. ltb t m) ts ≡ 0) × (0 < count_if (λ t. t == m) ts)

abbrev pub IsGreatest : ℕ → List ℕ → Type 0
IsGreatest m ts = (count_if (λ t. ltb m t) ts ≡ 0) × (0 < count_if (λ t. t == m) ts)

AllFrom-none_below : (m : ℕ) (ts : List ℕ) → AllFrom m ts → count_if (λ t. ltb t m) ts ≡ 0
AllFrom-none_below m [] h = refl
AllFrom-none_below m (t ∷ ts) h = ground (arith, AllFrom-none_below m ts h.1)

front-IsLeast : (t : ℕ) (ts : List ℕ) → IsSorted (t ∷ ts) → IsLeast (front (t ∷ ts)) (t ∷ ts)
front-IsLeast t ts s = (ground (arith, AllFrom-none_below t ts s.0), ground arith)

back-IsGreatest :
    (t : ℕ) (ts : List ℕ)
    → IsSorted (t ∷ ts)
    → (t ≤ back (t ∷ ts)) × IsGreatest (back (t ∷ ts)) (t ∷ ts)
back-IsGreatest t [] s = (omega arith, (ground arith, ground arith))
back-IsGreatest t (u ∷ us) s =
    let (low, (none_above, there)) = back-IsGreatest u us s.1 in
    (omega arith, (ground arith, ground arith))

sorted_ends :
    (ts : List ℕ) → IsSorted ts → 0 < length ts → IsLeast (front ts) ts × IsGreatest (back ts) ts
sorted_ends [] s h = elim h [ ]
sorted_ends (t ∷ ts) s h = (front-IsLeast t ts s, (back-IsGreatest t ts s).1)

sort_ends :
    (ts : List ℕ) → 0 < length ts → IsLeast (front (sort ts)) ts × IsGreatest (back (sort ts)) ts
sort_ends ts h =
    let m = front (sort ts) in
    let n = back (sort ts) in
    let ((below, at), (above, at')) =
      sorted_ends (sort ts) (sort-IsSorted ts) (omega (arith, length-sort ts)) in
    (
      (
        sym (count_if-sort (λ t. ltb t m) ts) ∙ below,
        omega (arith, count_if-sort (λ t. t == m) ts),
      ),
      (
        sym (count_if-sort (λ t. ltb n t) ts) ∙ above,
        omega (arith, count_if-sort (λ t. t == n) ts),
      ),
    )

-- What a histogram says of its samples.
pub record Describes {D : Type 0} (ratio : ℕ → ℕ → D) (one : ℕ) (num_of_bins bin_size : ℕ)
    (ts : List ℕ) (h : Histogram D) : Type 0 where
  pub min_least : ts ≢ [] → IsLeast h.min ts
  pub max_greatest : ts ≢ [] → IsGreatest h.max ts
  pub idle : ts ≡ [] → (h.min ≡ 0) × (h.max ≡ 0)
  pub average : ts ≢ [] → h.avg ≡ ratio (sum ts) (length ts)
  pub total : h.sum ≡ sum ts
  pub counted : h.count ≡ length ts
  pub bins_length : length h.dist ≡ num_of_bins + 1
  pub bins_lower : (j : ℕ) → j ≤ num_of_bins → get_elem? (lowers h.dist) j ≡ some (j * bin_size)
  pub bins_count :
      IsClear one bin_size ts
      → (j : ℕ) → j ≤ num_of_bins
      → bin_count h.dist j ≡ count_if (in_bin num_of_bins bin_size j) ts

module _ {D : Type 0} (zero_avg : D) (ratio : ℕ → ℕ → D) (one : ℕ) (num_of_bins bin_size : ℕ) where
  empty-Describes :
      Describes ratio one num_of_bins bin_size [] (new_histogram zero_avg num_of_bins bin_size)
  unfolding new_histogram
  empty-Describes = record {
    min_least = λ ne. absurd (ne refl);
    max_greatest = λ ne. absurd (ne refl);
    idle = λ e. (refl, refl);
    average = λ ne. absurd (ne refl);
    total = refl;
    counted = refl;
    bins_length = length-bins (num_of_bins + 1) 0 bin_size;
    bins_lower = λ j h. lowers-bins (num_of_bins + 1) 0 bin_size j (omega arith) ∙ rw zero-add;
    bins_count = λ clear j h. bin_count-bins (num_of_bins + 1) 0 bin_size j;
  }

  pub make_histogram-Describes :
      (ts : List ℕ)
      → (h : Histogram D) × (make_histogram zero_avg ratio one num_of_bins bin_size ts ≡ some h)
        × Describes ratio one num_of_bins bin_size ts h
  unfolding make_histogram
  make_histogram-Describes [] = (new_histogram zero_avg num_of_bins bin_size, refl, empty-Describes)
  make_histogram-Describes (t ∷ ts) =
      let sorted = sort (t ∷ ts) in
      let fresh = bins (num_of_bins + 1) 0 bin_size in
      let (dist', done, f, added, exact) =
        distribute-Added one num_of_bins bin_size sorted 0 0 bin_size fresh (sort-IsSorted (t ∷ ts))
          (omega arith) (omega arith) (inl refl) (length-bins (num_of_bins + 1) 0 bin_size) in
      let (least, greatest) = sort_ends (t ∷ ts) (omega arith) in
      (
        record {
          min = front sorted;
          max = back sorted;
          avg = ratio (sum_from 0 sorted) (length sorted);
          sum = sum_from 0 sorted;
          count = length sorted;
          dist = dist';
        },
        rw (done, make_histogram),
        record {
          min_least = λ ne. least;
          max_greatest = λ ne. greatest;
          idle = λ e. cc;
          average =
              λ ne. rw (sum_from-sum 0 sorted, zero-add, sum-sort (t ∷ ts), length-sort (t ∷ ts));
          total = rw (sum_from-sum 0 sorted, zero-add, sum-sort (t ∷ ts));
          counted = length-sort (t ∷ ts);
          bins_length = added.same_length ∙ length-bins (num_of_bins + 1) 0 bin_size;
          bins_lower = λ j h.
              rw added.same_lowers
                (lowers-bins (num_of_bins + 1) 0 bin_size j (omega arith) ∙ rw zero-add);
          bins_count = λ clear j h. ground (
            arith,
            exact
                (λ k.
                  count_if-sort (λ t. ltb (k * bin_size) t && ltb t (k * bin_size + one)) (t ∷ ts)
                  ∙ clear k)
                j (omega (arith, length-bins (num_of_bins + 1) 0 bin_size)),
            added.counts j (omega (arith, length-bins (num_of_bins + 1) 0 bin_size)),
            bin_count-bins (num_of_bins + 1) 0 bin_size j,
            count_if-sort (in_bin num_of_bins bin_size j) (t ∷ ts),
          );
        },
      )
