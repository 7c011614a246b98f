-- ===== src/Metrics/Timer/Covers.antt =====
-- What the histogram of some windows says of all their samples, through the merge of histograms in
-- `get_1min_histogram`.
use petrel.Prelude.{
  ℕ, zero, suc, ◌+◌, ◌*◌, ◌≤◌, ◌<◌, ◌≡◌, refl, ap, ◌∙◌, ◌⊎◌, inl, inr, Bool, ◌&&◌, List, [], ◌∷◌,
  ◌++◌, some, ltb, leb, length, length-append, get_elem?, if◌then◌else◌, arith,
}
use mathlib.Core.List.{append-nil, append_assoc}
use petrel.Metrics.Timer.{Histogram, add_bins, merge, merge_all}
use petrel.Metrics.Timer.Sort.{count_if, sum}
use petrel.Metrics.Timer.Bins.{
  Added, Added-trans, Added-congr, only, update_bin-Added, bin_count, in_bin, IsClear,
}
use petrel.Metrics.Timer.Distribution.{Describes}
use petrel.Metrics.Timer.Refinement.{AllDescribe}

-- All the samples of some windows.
abbrev pub samples : List (List ℕ) → List ℕ
samples [] = []
samples (ts ∷ wss) = ts ++ samples wss

count_if-append :
    (p : ℕ → Bool) (xs ys : List ℕ) → count_if p (xs ++ ys) ≡ count_if p xs + count_if p ys
count_if-append p [] ys = omega arith
count_if-append p (x ∷ xs) ys = omega (arith, count_if-append p xs ys)

sum-append : (xs ys : List ℕ) → sum (xs ++ ys) ≡ sum xs + sum ys
sum-append [] ys = omega arith
sum-append (x ∷ xs) ys = omega (arith, sum-append xs ys)

get_bin :
    (dist : List (ℕ × ℕ)) (i : ℕ)
    → i < length dist
    → (lower : ℕ) × (get_elem? dist i ≡ some (lower, bin_count dist i))
get_bin [] i h = elim h [ ]
get_bin ((lower, n) ∷ dist) zero h = (lower, refl)
get_bin ((lower, n) ∷ dist) (suc i) h = get_bin dist i (omega arith)

-- What the rounds from `i` on add to bin `j`.
abbrev between : ℕ → ℕ → List (ℕ × ℕ) → ℕ → ℕ
between i n from j = if leb i j && ltb j (i + n) then bin_count from j else 0

add_bins-Added :
    (n i : ℕ) (from into : List (ℕ × ℕ))
    → i + n ≤ length from
    → i + n ≤ length into
    → (into' : List (ℕ × ℕ)) × (add_bins n i from into ≡ some into')
      × Added (between i n from) into into'
unfolding add_bins
add_bins-Added zero i from into f t =
    (into, refl, record { same_length = refl; same_lowers = refl; counts = λ j h. ground arith })
add_bins-Added (suc n) i from into f t =
    let (lower, got) = get_bin from i (omega arith) in
    let (into₁, updated, a) = update_bin-Added into i (bin_count from i) (omega arith) in
    let (into₂, rest, b) =
      add_bins-Added n (i + 1) from into₁ (omega arith) (omega (arith, a.same_length)) in
    (
      into₂,
      rw (got, updated, add_bins) rest,
      Added-congr (λ j. between (i + 1) n from j + only i (bin_count from i) j)
          (between i (suc n) from) into into₂
          (λ j h. ground (arith, ap (bin_count from) {x = i} {y = j}))
          (Added-trans (only i (bin_count from i)) (between (i + 1) n from) into into₁ into₂ a b),
    )

none_below_mono :
    (m n : ℕ) (ts : List ℕ)
    → m ≤ n
    → count_if (λ t. ltb t n) ts ≡ 0
    → count_if (λ t. ltb t m) ts ≡ 0
none_below_mono m n [] h e = refl
none_below_mono m n (t ∷ ts) h e = ground (arith, none_below_mono m n ts)

none_above_mono :
    (m n : ℕ) (ts : List ℕ)
    → m ≤ n
    → count_if (λ t. ltb m t) ts ≡ 0
    → count_if (λ t. ltb n t) ts ≡ 0
none_above_mono m n [] h e = refl
none_above_mono m n (t ∷ ts) h e = ground (arith, none_above_mono m n ts)

-- What an aggregate says of the samples that went into it.
pub record Covers {D : Type 0} (one n size : ℕ) (ts : List ℕ) (h : Histogram D) : Type 0 where
  pub total : h.sum ≡ sum ts
  pub counted : h.count ≡ length ts
  pub bins_length : length h.dist ≡ n + 1
  pub bins_count :
      IsClear one size ts → (j : ℕ) → j ≤ n → bin_count h.dist j ≡ count_if (in_bin n size j) ts
  pub none_below : count_if (λ t. ltb t h.min) ts ≡ 0
  pub none_above : count_if (λ t. ltb h.max t) ts ≡ 0

-- Some window had no sample.
abbrev pub HasIdle : List (List ℕ) → Type 0
HasIdle [] = ⊥
HasIdle (ts ∷ wss) = (ts ≡ []) ⊎ HasIdle wss

module _ {D : Type 0} (ratio : ℕ → ℕ → D) (one n size : ℕ) where
  Describes-none_below :
      (ts : List ℕ) (h : Histogram D)
      → Describes ratio one n size ts h
      → count_if (λ t. ltb t h.min) ts ≡ 0
  Describes-none_below [] h d = refl
  Describes-none_below (t ∷ ts) h d = (d.min_least (λ e. cc)).0

  Describes-none_above :
      (ts : List ℕ) (h : Histogram D)
      → Describes ratio one n size ts h
      → count_if (λ t. ltb h.max t) ts ≡ 0
  Describes-none_above [] h d = refl
  Describes-none_above (t ∷ ts) h d = (d.max_greatest (λ e. cc)).0

  IsClear-append :
      (ss ts : List ℕ) → IsClear one size (ss ++ ts) → IsClear one size ss × IsClear one size ts
  IsClear-append ss ts clear = (
    λ k.
        omega
          (arith, clear k, count_if-append (λ t. ltb (k * size) t && ltb t (k * size + one)) ss ts),
    λ k.
        omega
          (arith, clear k, count_if-append (λ t. ltb (k * size) t && ltb t (k * size + one)) ss ts),
  )

  merge-Covers :
      (ss ts : List ℕ) (agg h : Histogram D)
      → Covers one n size ss agg
      → Describes ratio one n size ts h
      → (agg' : Histogram D) × (merge n h agg ≡ some agg')
        × (agg'.min ≡ (if ltb h.min agg.min then h.min else agg.min))
        × Covers one n size (ss ++ ts) agg'
  unfolding merge
  merge-Covers ss ts agg h c d =
      let (dist', added, a) =
        add_bins-Added (n + 1) 0 h.dist agg.dist (omega (arith, d.bins_length))
          (omega (arith, c.bins_length)) in
      let low = if ltb h.min agg.min then h.min else agg.min in
      let high = if ltb agg.max h.max then h.max else agg.max in
      (
        record agg {
          sum = agg.sum + h.sum;
          count = agg.count + h.count;
          dist = dist';
          min = low;
          max = high;
        },
        rw (added, merge),
        refl,
        record {
          total = omega (arith, c.total, d.total, sum-append ss ts);
          counted = omega (arith, c.counted, d.counted, length-append ss ts);
          bins_length = a.same_length ∙ c.bins_length;
          bins_count = λ clear j h'. ground (
            arith,
            a.counts j (omega (arith, c.bins_length)),
            c.bins_count (IsClear-append ss ts clear).0 j h',
            d.bins_count (IsClear-append ss ts clear).1 j h',
            count_if-append (in_bin n size j) ss ts,
          );
          none_below = omega (
            arith,
            count_if-append (λ t. ltb t low) ss ts,
            none_below_mono low agg.min ss (ground arith) c.none_below,
            none_below_mono low h.min ts (ground arith) (Describes-none_below ts h d),
          );
          none_above = omega (
            arith,
            count_if-append (λ t. ltb high t) ss ts,
            none_above_mono agg.max high ss (ground arith) c.none_above,
            none_above_mono h.max high ts (ground arith) (Describes-none_above ts h d),
          );
        },
      )

  carry :
      (ts : List ℕ) (h agg agg' : Histogram D) (wss : List (List ℕ))
      → agg'.min ≡ (if ltb h.min agg.min then h.min else agg.min)
      → Describes ratio one n size ts h
      → (agg.min ≡ 0) ⊎ ((ts ≡ []) ⊎ HasIdle wss)
      → (agg'.min ≡ 0) ⊎ HasIdle wss
  carry ts h agg agg' wss low d (inl z) = inl (ground arith)
  carry ts h agg agg' wss low d (inr (inl e)) = inl (ground (arith, d.idle e))
  carry ts h agg agg' wss low d (inr (inr later)) = inr later

  pub merge_all-Covers :
      (ss : List ℕ) (wss : List (List ℕ)) (agg : Histogram D) (hs : List (Histogram D))
      → Covers one n size ss agg
      → AllDescribe ratio one n size wss hs
      → (out : Histogram D) × (merge_all n hs agg ≡ some out)
        × Covers one n size (ss ++ samples wss) out
        × ((agg.min ≡ 0) ⊎ HasIdle wss → out.min ≡ 0)
  unfolding merge_all
  merge_all-Covers ss [] agg [] c d = (agg, refl, rw append-nil c, λ where_zero. ground arith)
  merge_all-Covers ss [] agg (h ∷ hs) c d = absurd d
  merge_all-Covers ss (ts ∷ wss) agg [] c d = absurd d
  merge_all-Covers ss (ts ∷ wss) agg (h ∷ hs) c d =
      let (agg₁, merged, low, c₁) = merge-Covers ss ts agg h c d.0 in
      let (out, rest, c₂, zero₂) = merge_all-Covers (ss ++ ts) wss agg₁ hs c₁ d.1 in
      (
        out,
        rw (merged, merge_all) rest,
        rw append_assoc at c₂,
        λ idle. zero₂ (carry ts h agg agg₁ wss low d.0 idle),
      )
