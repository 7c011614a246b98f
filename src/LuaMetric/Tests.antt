-- ===== src/LuaMetric/Tests.antt =====
-- Calls on a metric object.
use petrel.Prelude.{ℕ, ◌+◌, ◌-◌, ◌*◌, ◌≡◌, refl, List, [], ◌∷◌, none, some}
use petrel.Metrics.Registry.{counter, meter, timer, new_registry}
use petrel.Metrics.Meter.{Doubles, new_meter}
use petrel.Metrics.Timer.{new_timer}
use petrel.LuaMetric.{
  World, Metric, new_metric, Call, register, get_existing, start_duration, finish_duration,
  increments, total, to_int,
}
use petrel.LuaMetric.Durations.{IsTyped}
use petrel.LuaMetric.Typed.{calls_on, calls_on-IsTyped}

abbrev whole : Doubles
whole = record {
  Double = ℕ;
  of_ℕ = λ n. n;
  add = λ x y. x + y;
  sub = λ x y. x - y;
  mul = λ x y. x * y;
}

abbrev alpha : ℕ → ℕ
alpha secs = secs

abbrev world : World ℕ
world = record {
  registry = new_registry;
  counters = λ id. 0;
  meters = λ id. new_meter whole alpha;
  timers = λ id. new_timer 10 1000000;
}

abbrev program : List (World ℕ × Call)
program =
    (world, increments none)
    ∷ (world, register counter (some "hits"))
    ∷ (world, increments (some 2))
    ∷ (world, start_duration 5)
    ∷ (world, register timer (some "time"))
    ∷ (world, start_duration 7)
    ∷ (world, finish_duration 9)
    ∷ (world, get_existing meter (some "hits"))
    ∷ (world, total)
    ∷ []

calls_on-IsTyped_example :
    (last : Metric) × (calls_on whole alpha new_metric program ≡ some last) × IsTyped last
calls_on-IsTyped_example = calls_on-IsTyped whole alpha program

-- A negative number of Lua is a huge amount.
to_int-negative : to_int 18446744073709551615 ≡ 18446744073709551615
to_int-negative = refl
