-- ===== src/Metrics/Reports.antt =====
-- What the registry reports: the settings of src/metrics/registry.cpp, and the lines for graphite of
-- src/metrics/counter.h, meter.h, timer.h and registry.cpp. A line is its name, a value and the time;
-- how a number is written as text is left to the stream.
use petrel.Prelude.{
  ℕ, ◌+◌, ◌*◌, ◌/◌, ◌≡◌, refl, Bool, false, ◌&&◌, List, [], ◌∷◌, ◌++◌, Option, none, some, ltb,
  length, length-append, if◌then◌else◌, arith,
}
use petrel.Texts.{codes}
use petrel.Metrics.Meter.{Meter}
use petrel.Metrics.Timer.{Histogram}

-- The options; `host` and `port` are there if they are set, and a negative time stands as 0.
pub record Settings : Type 0 where
  pub log_interval : ℕ
  pub graphite_enabled : Bool
  pub graphite_interval : ℕ
  pub host : Option (List ℕ)
  pub port : Option (List ℕ)

-- The members after the constructor.
pub record Reporter : Type 0 where
  pub every : ℕ
  pub sends : Bool
  pub send_every : ℕ
  pub endpoint : List ℕ × List ℕ

abbrev pub both : Option (List ℕ) → Option (List ℕ) → Option (List ℕ × List ℕ)
both (some host) (some port) = some (host, port)
both _ _ = none

unfoldable pub new_reporter : Settings → Reporter
new_reporter o =
    let r : Reporter = record {
      every = o.log_interval;
      sends = o.graphite_enabled;
      send_every = o.graphite_interval;
      endpoint = ([], []);
    } in
    if o.graphite_enabled && ltb 0 o.graphite_interval
    then elim (both o.host o.port) [
      | none ↦ record r { sends = false }
      | some (host, port) ↦ record r { endpoint = (host, port) }
    ]
    else r

pub data Value (D : Type 0) : Type 0 where
  whole : ℕ → Value D
  double : D → Value D

pub record Line (D : Type 0) : Type 0 where
  pub name : List ℕ
  pub value : Value D
  pub time : ℕ

-- A metric as the registry's map holds it, for a report.
pub data Metric (D : Type 0) : Type 0 where
  counts : ℕ → Metric D
  meters : Meter D → Metric D
  times : Histogram D → Metric D

module _ {D : Type 0} where
  abbrev pub line : List ℕ → Value D → ℕ → Line D
  line name v ts = record { name = name; value = v; time = ts }

  pub counter_graphite : ℕ → List ℕ → ℕ → List (Line D)
  counter_graphite val name ts = line name (whole val) ts ∷ []

  pub meter_graphite : Meter D → List ℕ → ℕ → List (Line D)
  meter_graphite m name ts =
      line (name ++ codes ".1m_rate") (double m.rate_1min) ts
      ∷ line (name ++ codes ".5m_rate") (double m.rate_5min) ts
      ∷ line (name ++ codes ".15m_rate") (double m.rate_15min) ts
      ∷ line (name ++ codes ".1hr_rate") (double m.rate_1hr) ts
      ∷ []

-- `digits` writes a whole number, `millis` and `avg_millis` divide by 1000000, and `percent` is a share
-- of a count.
module _ {D : Type 0} (digits : ℕ → List ℕ) (millis : ℕ → D) (avg_millis : D → D) (zero_percent : D)
    (percent : ℕ → ℕ → D) where
  pub bin_graphite : ℕ → List ℕ → ℕ → List (ℕ × ℕ) → List (Line D)
  bin_graphite count name ts [] = []
  bin_graphite count name ts ((lower, n) ∷ dist) =
      let bin = name ++ codes ".1m_dist_" ++ digits (lower / 1000000) in
      let perc = if ltb 0 count then percent n count else zero_percent in
      line (bin ++ codes "ms_percent") (double perc) ts
      ∷ line (bin ++ codes "ms_count") (whole n) ts
      ∷ bin_graphite count name ts dist

  pub timer_graphite : Histogram D → List ℕ → ℕ → List (Line D)
  unfolding bin_graphite
  timer_graphite h name ts =
      line (name ++ codes ".1m_avg_ms") (double (avg_millis h.avg)) ts
      ∷ line (name ++ codes ".1m_min_ms") (double (millis h.min)) ts
      ∷ line (name ++ codes ".1m_max_ms") (double (millis h.max)) ts
      ∷ line (name ++ codes ".1m_count") (whole h.count) ts
      ∷ bin_graphite h.count name ts h.dist

  pub graphite : Metric D → List ℕ → ℕ → List (Line D)
  unfolding counter_graphite meter_graphite timer_graphite
  graphite (counts val) name ts = counter_graphite val name ts
  graphite (meters m) name ts = meter_graphite m name ts
  graphite (times h) name ts = timer_graphite h name ts

  -- The loop over the metrics; `prefix` is the option, the host's name and a dot.
  pub send_all : List ℕ → ℕ → List (List ℕ × Metric D) → List (Line D)
  unfolding graphite
  send_all prefix ts [] = []
  send_all prefix ts ((name, m) ∷ ms) = graphite m (prefix ++ name) ts ++ send_all prefix ts ms

  abbrev pub lines_of : Metric D → ℕ
  lines_of (counts val) = 1
  lines_of (meters m) = 4
  lines_of (times h) = 4 + 2 * length h.dist

  abbrev pub lines_of_all : List (List ℕ × Metric D) → ℕ
  lines_of_all [] = 0
  lines_of_all ((name, m) ∷ ms) = lines_of m + lines_of_all ms

  length-bin_graphite :
      (count : ℕ) (name : List ℕ) (ts : ℕ) (dist : List (ℕ × ℕ))
      → length (bin_graphite count name ts dist) ≡ 2 * length dist
  unfolding bin_graphite
  length-bin_graphite count name ts [] = refl
  length-bin_graphite count name ts ((lower, n) ∷ dist) =
      omega (arith, length-bin_graphite count name ts dist)

  length-graphite :
      (m : Metric D) (name : List ℕ) (ts : ℕ) → length (graphite m name ts) ≡ lines_of m
  unfolding graphite
  length-graphite (counts val) name ts = refl
  length-graphite (meters m) name ts = refl
  length-graphite (times h) name ts = omega (arith, length-bin_graphite h.count name ts h.dist)

  -- A round sends one line for a counter, four for a meter, and four and two for each bin for a timer.
  pub length-send_all :
      (prefix : List ℕ) (ts : ℕ) (ms : List (List ℕ × Metric D))
      → length (send_all prefix ts ms) ≡ lines_of_all ms
  unfolding send_all
  length-send_all prefix ts [] = refl
  length-send_all prefix ts ((name, m) ∷ ms) = omega (
    arith,
    length-graphite m (prefix ++ name) ts,
    length-send_all prefix ts ms,
    length-append (graphite m (prefix ++ name) ts) (send_all prefix ts ms),
  )
