-- ===== src/LuaMetric.antt =====
-- `lib::metric` of src/lib/builtin/metric.h and metric.cpp: a metric object of a Lua program, over the
-- registry and the metrics. A dereference of a null pointer is a fault; an error is one of Lua.
-- Arguments are what Lua's checks give: none where the check raises an error or finds no number.
-- The time is an argument of the calls that read the clock. A time is given in the units of the timers,
-- and is not negative; the pointers of the context are taken to be set.
pub mod Durations
pub mod Typed
mod Tests
use Prim.Native.String.{String}
use petrel.Prelude.{
  ℕ, ◌+◌, ◌-◌, ◌*◌, ◌%◌, Bool, true, false, List, [], ◌∷◌, Option, none, some, ◌==◌, ltb,
  if◌then◌else◌,
}
use petrel.Metrics.Registry.{
  Kind, counter, meter, timer, kind_eq, Pointer, Registry, cast, get_metric, register_metric,
}
use petrel.Metrics.Counter.{u64, increment, decrement, get_and_reset, get}
use petrel.Metrics.Meter.{Doubles, Meter, new_meter, increment_meter}
use petrel.Metrics.Timer.{Timer, new_timer, update}

-- The registry, and the objects behind its pointers by number.
pub record World (D : Type 0) : Type 0 where
  pub registry : Registry
  pub counters : ℕ → ℕ
  pub meters : ℕ → Meter D
  pub timers : ℕ → Timer D

-- `metrics::timer::duration` with one timer.
pub record Duration : Type 0 where
  pub for_timer : Option Pointer
  pub start : ℕ
  pub finished : Bool

-- `m_type`, without a value for `undef`, `m_metric` and `m_duration`.
pub record Metric : Type 0 where
  pub type : Option Kind
  pub assigned : Option Pointer
  pub duration : Option Duration

pub new_metric : Metric
new_metric = record { type = none; assigned = none; duration = none }

pub data Error : Type 0 where
  bad_argument no_metric invalid_type no_duration : Error

-- `done` has the object, the world and the numbers pushed for Lua.
pub data Outcome (D : Type 0) : Type 0 where
  done : Metric → World D → List ℕ → Outcome D
  error : Error → Outcome D
  fault : Outcome D

pub data Call : Type 0 where
  register get_existing : Kind → Option String → Call
  update_value : Option ℕ → Call
  start_duration update_duration finish_duration : ℕ → Call
  increments decrements : Option ℕ → Call
  total reset : Call

abbrev pub is_kind : Kind → Option Kind → Bool
is_kind k none = false
is_kind k (some j) = kind_eq j k

-- A number of Lua as an `int`, and that as the 64-bit argument of a metric.
abbrev pub to_int : ℕ → ℕ
to_int v =
    let low = v % 4294967296 in if ltb low 2147483648 then low else low + 18446744069414584320

abbrev pub amount : Option ℕ → ℕ
amount none = 1
amount (some v) = to_int v

abbrev pub at : {A : Type 0} → (ℕ → A) → ℕ → A → ℕ → A
at f id a other = if id == other then a else f other

module _ {D : Type 0} where
  -- `duration::update`, and what the destructor of a replaced object does.
  pub update_timer : Duration → ℕ → World D → Option (Duration × World D)
  update_timer d now w = if d.finished then some (d, w) else elim d.for_timer [
    | none ↦ none
    | some p ↦ some (
      record d { start = now },
      record w { timers = at w.timers p.id (update (w.timers p.id) (now - d.start)) },
    )
  ]

  -- `m_duration = std::make_unique<…>(timer)` at the time `now`; the old object is deleted at `later`.
  abbrev pub replace_duration : Metric → Option Pointer → ℕ → ℕ → World D → Outcome D
  replace_duration m p now later w =
      let d : Duration = record { for_timer = p; start = now; finished = false } in
      elim m.duration [
        | none ↦ done (record m { duration = some d }) w []
        | some old ↦ elim (update_timer old later w) [
          | none ↦ fault
          | some (gone, w') ↦ done (record m { duration = some d }) w' []
        ]
      ]

  abbrev pub with_duration : Metric → Bool → ℕ → World D → Outcome D
  with_duration m finishes now w = elim m.duration [
    | none ↦ error no_duration
    | some d ↦ elim (update_timer d now w) [
      | none ↦ fault
      | some (d', w') ↦
          done
            (record m { duration = some (if finishes then record d' { finished = true } else d') })
            w' []
    ]
  ]

  -- `std::dynamic_pointer_cast<T>(m_metric)->…`
  abbrev pub on_cast : Kind → Pointer → (Pointer → Outcome D) → Outcome D
  on_cast k p use_it = elim (cast k p) [ none ↦ fault | some q ↦ use_it q ]

module _ (F : Doubles) (alpha : ℕ → F.Double) where
  -- The object that `make_shared` creates; `metrics_count` objects were there before.
  abbrev pub initialise : Kind → Registry → World F.Double → World F.Double
  initialise k before w =
      let id = before.created in
      elim k [
        | counter ↦ record w { counters = at w.counters id 0 }
        | meter ↦ record w { meters = at w.meters id (new_meter F alpha) }
        | timer ↦ record w { timers = at w.timers id (new_timer 10 1000000) }
      ]

  pub register_kind : Kind → Option String → Metric → World F.Double → Outcome F.Double
  register_kind k none m w = error bad_argument
  register_kind k (some name) m w =
      let (r, p) = register_metric k name w.registry in
      let w' : World F.Double = elim (get_metric k name w.registry) [
        | none ↦ initialise k w.registry w
        | some q ↦ w
      ] in
      done (record m { type = some k; assigned = some p }) (record w' { registry = r }) []

  pub get_kind : Kind → Option String → Metric → World F.Double → Outcome F.Double
  get_kind k none m w = error bad_argument
  get_kind k (some name) m w =
      done (record m { type = some k; assigned = get_metric k name w.registry }) w []

  pub call : Call → Metric → World F.Double → Outcome F.Double
  unfolding register_kind get_kind update_timer
  call (register k name) m w = register_kind k name m w
  call (get_existing k name) m w = get_kind k name m w
  call (update_value none) m w = error bad_argument
  call (update_value (some val)) m w = elim m.assigned [
    | none ↦ error no_metric
    | some p ↦
        if is_kind timer m.type
        then on_cast timer p
            (λ q. done m (record w { timers = at w.timers q.id (update (w.timers q.id) val) }) [])
        else error invalid_type
  ]
  call (start_duration now) m w = elim m.assigned [
    | none ↦ error no_metric
    | some p ↦
        if is_kind timer m.type
        then replace_duration m (cast timer p) now now w
        else error invalid_type
  ]
  call (update_duration now) m w = with_duration m false now w
  call (finish_duration now) m w = with_duration m true now w
  call (increments v) m w = elim m.assigned [
    | none ↦ error no_metric
    | some p ↦
        if is_kind counter m.type
        then on_cast counter p (λ q.
          done m
            (record w { counters = at w.counters q.id (increment (w.counters q.id) (amount v)).0 })
            [])
        else if is_kind meter m.type
        then on_cast meter p (λ q.
          done m
            (record w {
              meters = at w.meters q.id (increment_meter F (w.meters q.id) (amount v)).0;
            })
            [])
        else error invalid_type
  ]
  call (decrements v) m w = elim m.assigned [
    | none ↦ error no_metric
    | some p ↦
        if is_kind counter m.type
        then on_cast counter p (λ q.
          done m
            (record w { counters = at w.counters q.id (decrement (w.counters q.id) (amount v)).0 })
            [])
        else error invalid_type
  ]
  call total m w = elim m.assigned [
    | none ↦ error no_metric
    | some p ↦
        if is_kind counter m.type
        then on_cast counter p (λ q. done m w (get (w.counters q.id) ∷ []))
        else if is_kind meter m.type
        then on_cast meter p (λ q. done m w ((w.meters q.id).counter_total ∷ []))
        else error invalid_type
  ]
  call reset m w = elim m.assigned [
    | none ↦ error no_metric
    | some p ↦
        if is_kind counter m.type
        then on_cast counter p (λ q.
          done m (record w { counters = at w.counters q.id (get_and_reset (w.counters q.id)).0 })
            [])
        else error invalid_type
  ]
