-- ===== src/Metrics/Timer/Tests.antt =====
-- The timer's theorems at concrete samples. A quotient is kept as the pair of its numbers.
use petrel.Prelude.{ℕ, ◌≡◌, refl, inl, inr, List, [], ◌∷◌, ◌++◌, replicate, some}
use petrel.Metrics.Timer.{
  Histogram, Timer, new_timer, make_histogram, distribute, next_bin, update_bin, bins, sort,
  insert_sorted, sum_from, get_1min_histogram,
}
use petrel.Metrics.Timer.Refinement.{Call, sample, tick, run}
use petrel.Metrics.Timer.Covers.{Covers}
use petrel.Metrics.Timer.Minute.{get_1min_histogram-idle_min}

abbrev pair : ℕ → ℕ → ℕ × ℕ
pair a b = (a, b)

-- Three bins of size 10 and one for what is above 30.
histogram_test :
    make_histogram (0, 1) pair 1 3 10 (25 ∷ 7 ∷ 10 ∷ 99 ∷ 11 ∷ [])
    ≡ some (record {
      min = 7;
      max = 99;
      avg = (152, 5);
      sum = 152;
      count = 5;
      dist = (0, 2) ∷ (10, 1) ∷ (20, 1) ∷ (30, 1) ∷ [];
    })
unfolding make_histogram distribute next_bin update_bin bins sort insert_sorted sum_from
histogram_test = refl

-- A busy window, then an idle one.
abbrev busy_then_idle : List Call
busy_then_idle = sample 5 ∷ sample 12 ∷ (replicate 10 tick ++ replicate 10 tick)

get_1min_histogram-idle_min_example :
    (t : Timer (ℕ × ℕ)) × (run (0, 1) pair 1 (new_timer 3 10) busy_then_idle ≡ some t)
    × (h : Histogram (ℕ × ℕ)) × (get_1min_histogram (0, 1) pair 1 1000 t ≡ some h)
    × (h.min ≡ 0)
get_1min_histogram-idle_min_example =
    get_1min_histogram-idle_min (0, 1) pair 1 1000 3 10 busy_then_idle (inr (inl refl))
