-- ===== src/Metrics/Meter.antt =====
-- `metrics::meter` of src/metrics/meter.h. The rates are doubles: their type and operations are the
-- interface `Doubles`, and the four smoothing factors are fields of the meter.
use petrel.Prelude.{ℕ, ◌+◌, ◌*◌, ◌≡◌, List, [], ◌∷◌, arith}
use petrel.Metrics.Counter.{u64, increment, get_and_reset}

pub record Doubles : Type 1 where
  pub Double : Type 0
  pub of_ℕ : ℕ → Double
  pub add : Double → Double → Double
  pub sub : Double → Double → Double
  pub mul : Double → Double → Double

pub record Meter (D : Type 0) : Type 0 where
  pub counter_1s : ℕ
  pub counter_total : ℕ
  pub rate_1min : D
  pub rate_5min : D
  pub rate_15min : D
  pub rate_1hr : D
  pub alpha_1min : D
  pub alpha_5min : D
  pub alpha_15min : D
  pub alpha_1hr : D

pub data Call : Type 0 where
  increments : ℕ → Call
  aggregates : Call

module _ (F : Doubles) where
  open F use {Double, of_ℕ, add, sub, mul}

  -- The constructor; `alpha secs` is the value of the private method `alpha`.
  pub new_meter : (ℕ → Double) → Meter Double
  new_meter alpha = record {
    counter_1s = 0;
    counter_total = 0;
    rate_1min = of_ℕ 0;
    rate_5min = of_ℕ 0;
    rate_15min = of_ℕ 0;
    rate_1hr = of_ℕ 0;
    alpha_1min = alpha 60;
    alpha_5min = alpha (5 * 60);
    alpha_15min = alpha (15 * 60);
    alpha_1hr = alpha (60 * 60);
  }

  pub increment_meter : Meter Double → ℕ → Meter Double × ℕ
  unfolding increment
  increment_meter m i =
      (record m { counter_1s = (increment m.counter_1s i).0 }, (increment m.counter_1s i).1)

  -- `rate * (1 - ALPHA) + c * ALPHA`
  abbrev pub smooth : Double → Double → ℕ → Double
  smooth alpha rate c = add (mul rate (sub (of_ℕ 1) alpha)) (mul (of_ℕ c) alpha)

  pub aggregate : Meter Double → Meter Double
  unfolding get_and_reset
  aggregate m =
      let (rest, c) = get_and_reset m.counter_1s in
      record m {
        counter_1s = rest;
        counter_total = u64 (m.counter_total + c);
        rate_1min = smooth m.alpha_1min m.rate_1min c;
        rate_5min = smooth m.alpha_5min m.rate_5min c;
        rate_15min = smooth m.alpha_15min m.rate_15min c;
        rate_1hr = smooth m.alpha_1hr m.rate_1hr c;
      }

  pub run : Meter Double → List Call → Meter Double
  run m [] = m
  run m (increments i ∷ cs) = run (increment_meter m i).0 cs
  run m (aggregates ∷ cs) = run (aggregate m) cs

-- How much was incremented.
abbrev pub incremented : List Call → ℕ
incremented [] = 0
incremented (increments i ∷ cs) = i + incremented cs
incremented (aggregates ∷ cs) = incremented cs

module _ (F : Doubles) where
  open F use {Double, of_ℕ}

  run_total :
      (m : Meter Double) (cs : List Call)
      → u64 ((run F m cs).counter_total + (run F m cs).counter_1s)
        ≡ u64 (m.counter_total + m.counter_1s + incremented cs)
  unfolding run increment_meter aggregate
  run_total m [] = omega arith
  run_total m (increments i ∷ cs) = omega (arith, run_total (increment_meter F m i).0 cs)
  run_total m (aggregates ∷ cs) = omega (arith, run_total (aggregate F m) cs)

  -- Every increment of a new meter is in its total or still in its counter, modulo 2^64, wherever
  -- the calls of `aggregate` fall.
  pub run-new_meter_total :
      (alpha : ℕ → Double) (cs : List Call)
      → u64
          ((run F (new_meter F alpha) cs).counter_total + (run F (new_meter F alpha) cs).counter_1s)
        ≡ u64 (incremented cs)
  unfolding new_meter
  run-new_meter_total alpha cs = omega (arith, run_total (new_meter F alpha) cs)
