-- ===== src/Metrics/Tests.antt =====
-- The theorems on counters, meters and the registry at concrete calls.
use petrel.Prelude.{ℕ, ◌+◌, ◌-◌, ◌*◌, ◌≡◌, ◌<◌, List, [], ◌∷◌, arith}
use petrel.Metrics.Counter
use petrel.Metrics.Counter.{u64, run-balance}
use petrel.Metrics.Meter
use petrel.Metrics.Meter.{Doubles, new_meter, incremented, run-new_meter_total}
use petrel.Metrics.Registry.{meter, timer, new_registry, check_new_metrics}
use petrel.Metrics.Registry.Laws.{
  Registered, register_metric-Registered, Call, registers, checks, run, ids, numbers,
  run-check_fibers,
}

abbrev counter_calls : List Counter.Call
counter_calls = Counter.decrements 3 ∷ Counter.increments 5 ∷ []

run-balance_example :
    (u64 (Counter.run 1 counter_calls + 3) ≡ u64 (1 + 5))
    × (Counter.run 1 counter_calls < 18446744073709551616)
run-balance_example = run-balance 1 counter_calls (omega arith) (omega arith)

-- Whole numbers in place of doubles.
abbrev whole : Doubles
whole = record { Double = ℕ; of_ℕ = λ n. n; add = ◌+◌; sub = ◌-◌; mul = ◌*◌ }

abbrev meter_calls : List Meter.Call
meter_calls =
    Meter.increments 2
    ∷ Meter.increments 3
    ∷ Meter.aggregates
    ∷ Meter.increments 4
    ∷ Meter.aggregates
    ∷ Meter.increments 1
    ∷ []

run-new_meter_total_example :
    let m = Meter.run whole (new_meter whole (λ s. 1)) meter_calls in
    u64 (m.counter_total + m.counter_1s) ≡ 10
run-new_meter_total_example = run-new_meter_total whole (λ s. 1) meter_calls

register_metric-Registered_example : Registered meter "requests" new_registry
register_metric-Registered_example = register_metric-Registered meter "requests" new_registry

-- The second registration of "x" is for another class and replaces the first.
abbrev registry_calls : List Call
registry_calls = registers meter "x" ∷ checks ∷ registers timer "x" ∷ registers timer "x" ∷ []

run-check_fibers_example :
    let r = check_new_metrics (run new_registry registry_calls) in
    (r.new_metrics ≡ []) × (ids r.fibers ≡ numbers r.created)
run-check_fibers_example = run-check_fibers registry_calls
