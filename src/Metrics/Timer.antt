-- ===== src/Metrics/Timer.antt =====
-- `metrics::timer` of src/metrics/timer.h: samples are collected in one of two buffers; every tenth
-- call of `aggregate` turns the buffer into a histogram, and six histograms make a minute.
-- A time is a double that is not negative. Such doubles are fixed-point numbers: a time is how many
-- units it has, of which `one` make 1.0, so it need not be a whole number of nanoseconds; the sum is
-- exact. Averages are of the abstract type `D`, with `ratio` for the division of doubles and
-- `zero_avg` for 0. `dist[bin]` out of range is a fault (`none`).
pub mod Sort
pub mod Bins
pub mod Distribution
pub mod Refinement
pub mod Covers
pub mod Minute
mod Tests
use petrel.Prelude.{
  ℕ, zero, suc, ◌+◌, ◌-◌, ◌*◌, ◌%◌, ◌^◌, Bool, true, false, ◌&&◌, ◌||◌, List, [], ◌∷◌, ◌++◌, map,
  Option, none, some, ◌==◌, ltb, leb, length, get_elem?, set, drop, if◌then◌else◌,
}

-- `histogram`; `dist` holds each bin's lower bound and count.
pub record Histogram (D : Type 0) : Type 0 where
  pub min : ℕ
  pub max : ℕ
  pub avg : D
  pub sum : ℕ
  pub count : ℕ
  pub dist : List (ℕ × ℕ)

-- The loop of the constructor: `n` bins from `lower` on.
pub bins : ℕ → ℕ → ℕ → List (ℕ × ℕ)
bins zero lower bin_size = []
bins (suc n) lower bin_size = (lower, 0) ∷ bins n (lower + bin_size) bin_size

pub new_histogram : {D : Type 0} → D → ℕ → ℕ → Histogram D
new_histogram zero_avg num_of_bins bin_size = record {
  min = 0;
  max = 0;
  avg = zero_avg;
  sum = 0;
  count = 0;
  dist = bins (num_of_bins + 1) 0 bin_size;
}

-- `update_bin`, on the vector of bins.
pub update_bin : List (ℕ × ℕ) → ℕ → ℕ → Option (List (ℕ × ℕ))
update_bin [] bin count = none
update_bin ((lower, n) ∷ dist) zero count = some ((lower, n + count) ∷ dist)
update_bin (b ∷ dist) (suc bin) count = elim (update_bin dist bin count) [
  | none ↦ none
  | some dist' ↦ some (b ∷ dist')
]

-- `std::sort`
pub insert_sorted : ℕ → List ℕ → List ℕ
insert_sorted t [] = t ∷ []
insert_sorted t (u ∷ us) = if leb t u then t ∷ u ∷ us else u ∷ insert_sorted t us

pub sort : List ℕ → List ℕ
sort [] = []
sort (t ∷ ts) = insert_sorted t (sort ts)

-- `data.front()` and `data.back()`; only called on data that is not empty.
abbrev pub front : List ℕ → ℕ
front [] = 0
front (t ∷ ts) = t

abbrev pub back : List ℕ → ℕ
back [] = 0
back (t ∷ []) = t
back (t ∷ u ∷ us) = back (u ∷ us)

-- `for (auto t : data) hist.sum += t;`
pub sum_from : ℕ → List ℕ → ℕ
sum_from s [] = s
sum_from s (t ∷ ts) = sum_from (s + t) ts

module _ (num_of_bins bin_size : ℕ) where
  -- `while (d > upper && i < m_num_of_bins) { i++; upper += m_bin_size; }` from `(i, upper)`, with
  -- fuel for its rounds.
  pub next_bin : ℕ → ℕ → ℕ → ℕ → ℕ × ℕ
  next_bin zero d i upper = (i, upper)
  next_bin (suc fuel) d i upper =
      let rest = next_bin fuel d (i + 1) (upper + bin_size) in
      if ltb upper d && ltb i num_of_bins then rest else (i, upper)

module _ (one num_of_bins bin_size : ℕ) where
  -- The loop over the sorted data, with `count`, `i`, `upper` and the bins, and the update after it.
  pub distribute : List ℕ → ℕ → ℕ → ℕ → List (ℕ × ℕ) → Option (List (ℕ × ℕ))
  distribute [] count i upper dist = update_bin dist i count
  distribute (d ∷ data') count i upper dist = elim (ltb d (upper + one) || i == num_of_bins) [
    | true ↦ distribute data' (count + 1) i upper dist
    | false ↦ elim (update_bin dist i count) [
      | none ↦ none
      | some dist' ↦
          distribute data' 1 (next_bin num_of_bins bin_size num_of_bins d i upper).0
            (next_bin num_of_bins bin_size num_of_bins d i upper).1 dist'
    ]
  ]

module _ {D : Type 0} (zero_avg : D) (ratio : ℕ → ℕ → D) (one : ℕ) where
  -- The histogram of a buffer of samples.
  pub make_histogram : ℕ → ℕ → List ℕ → Option (Histogram D)
  unfolding new_histogram
  make_histogram num_of_bins bin_size [] = some (new_histogram zero_avg num_of_bins bin_size)
  make_histogram num_of_bins bin_size (t ∷ ts) =
      let sorted = sort (t ∷ ts) in
      let total = sum_from 0 sorted in
      elim (distribute one num_of_bins bin_size sorted 0 0 bin_size
        (bins (num_of_bins + 1) 0 bin_size)) [
          | none ↦ none
          | some dist' ↦ some (record {
            min = front sorted;
            max = back sorted;
            avg = ratio total (length sorted);
            sum = total;
            count = length sorted;
            dist = dist';
          })
        ]

-- The timer. `times_0` and `times_1` are the buffers, `times_idx` (uint8) selects one of them, and
-- `aggregate_counter` is a uint8.
pub record Timer (D : Type 0) : Type 0 where
  pub times_0 : List ℕ
  pub times_1 : List ℕ
  pub times_idx : ℕ
  pub values : List (Histogram D)
  pub num_of_bins : ℕ
  pub bin_size : ℕ
  pub aggregate_counter : ℕ

module _ {D : Type 0} where
  pub new_timer : ℕ → ℕ → Timer D
  new_timer num_of_bins bin_size = record {
    times_0 = [];
    times_1 = [];
    times_idx = 0;
    values = [];
    num_of_bins = num_of_bins;
    bin_size = bin_size;
    aggregate_counter = 0;
  }

  -- `m_times[m_times_idx]`
  abbrev pub active : Timer D → List ℕ
  active t = if t.times_idx == 0 then t.times_0 else t.times_1

  abbrev pub set_active : Timer D → List ℕ → Timer D
  set_active t ts = record t {
    times_0 = if t.times_idx == 0 then ts else t.times_0;
    times_1 = if t.times_idx == 0 then t.times_1 else ts;
  }

  pub update : Timer D → ℕ → Timer D
  update t time = set_active t (active t ++ time ∷ [])

  -- `m_1min_values.push_back(hist)`, and the first is erased if there are more than six.
  abbrev pub push_value : List (Histogram D) → Histogram D → List (Histogram D)
  push_value hs h = if ltb 6 (length (hs ++ h ∷ [])) then drop 1 (hs ++ h ∷ []) else hs ++ h ∷ []

-- `aggregate.update_bin(i, hist.dist[i].second)` for `i` from 0 to `m_num_of_bins`.
pub add_bins : ℕ → ℕ → List (ℕ × ℕ) → List (ℕ × ℕ) → Option (List (ℕ × ℕ))
add_bins zero i from into = some into
add_bins (suc n) i from into = elim (get_elem? from i) [
  | none ↦ none
  | some (lower, count) ↦ elim (update_bin into i count) [
    | none ↦ none
    | some into' ↦ add_bins n (i + 1) from into'
  ]
]

module _ {D : Type 0} where
  -- The body of the loop of `get_1min_histogram`.
  pub merge : ℕ → Histogram D → Histogram D → Option (Histogram D)
  merge num_of_bins hist agg = elim (add_bins (num_of_bins + 1) 0 hist.dist agg.dist) [
    | none ↦ none
    | some dist' ↦ some (record agg {
      sum = agg.sum + hist.sum;
      count = agg.count + hist.count;
      dist = dist';
      min = if ltb hist.min agg.min then hist.min else agg.min;
      max = if ltb agg.max hist.max then hist.max else agg.max;
    })
  ]

  pub merge_all : ℕ → List (Histogram D) → Histogram D → Option (Histogram D)
  merge_all num_of_bins [] agg = some agg
  merge_all num_of_bins (h ∷ hs) agg = elim (merge num_of_bins h agg) [
    | none ↦ none
    | some agg' ↦ merge_all num_of_bins hs agg'
  ]

module _ {D : Type 0} (zero_avg : D) (ratio : ℕ → ℕ → D) (one : ℕ) where
  -- The tenth call's work: the buffers switch, and the old one becomes a histogram.
  pub flush : Timer D → Option (Timer D)
  flush t = elim (make_histogram zero_avg ratio one t.num_of_bins t.bin_size (active t)) [
    | none ↦ none
    | some h ↦ some (record (set_active t []) {
      times_idx = (t.times_idx + 1) % 2;
      values = push_value t.values h;
      aggregate_counter = 0;
    })
  ]

  pub aggregate : Timer D → Option (Timer D)
  unfolding flush
  aggregate t =
      let counter = (t.aggregate_counter + 1) % 256 in
      if leb 10 counter
      then flush (record t { aggregate_counter = counter })
      else some (record t { aggregate_counter = counter })

  abbrev pub with_avg : Histogram D → Histogram D
  with_avg h = if ltb 0 h.count then record h { avg = ratio h.sum h.count } else h

  -- `get_1min_histogram`; `double_max` is `std::numeric_limits<double>::max()`.
  pub get_1min_histogram : ℕ → Timer D → Option (Histogram D)
  get_1min_histogram double_max t =
      let agg = new_histogram zero_avg t.num_of_bins t.bin_size in
      if ltb 0 (length t.values)
      then elim (merge_all t.num_of_bins t.values (record agg { min = double_max })) [
        | none ↦ none
        | some h ↦ some (with_avg h)
      ]
      else some agg
