-- ===== src/LuaMetric/Typed.antt =====
-- The type that a metric object has noted against the class of its metric, over its calls.
use Prim.Native.String.{String}
use petrel.Prelude.{
  ℕ, ◌≡◌, refl, sym, ap, ◌∙◌, true, false, List, [], ◌∷◌, Option, none, some, arith,
}
use petrel.Metrics.Registry.{Kind, counter, meter, timer}
use petrel.Metrics.Registry.Laws.{get_metric-kind, register_metric-Registered}
use petrel.Metrics.Meter.{Doubles}
use mathlib.Core.Option.{some-injective}
use petrel.LuaMetric.{
  World, Metric, new_metric, Outcome, done, error, fault, Call, register, get_existing,
  update_value, start_duration, update_duration, finish_duration, increments, decrements, total,
  reset, register_kind, get_kind, call, invalid_type,
}
use petrel.LuaMetric.Durations.{
  IsTyped, Safe, assigned-Safe, start_duration-Safe, typed-Safe, with_duration-Safe,
}

module _ (F : Doubles) (alpha : ℕ → F.Double) where
  register_kind-Safe :
      (k : Kind) (name : Option String) (m : Metric) (w : World F.Double)
      → IsTyped m
      → Safe (register_kind F alpha k name m w)
  unfolding register_kind
  register_kind-Safe k none m w t = tt
  register_kind-Safe k (some name) m w t = (
    λ p e. ap some (
        sym (register_metric-Registered k name w.registry).right_class
        ∙ ap (λ q. q.kind) (some-injective _ p e)),
    t.1,
  )

  get_kind-Safe :
      (k : Kind) (name : Option String) (m : Metric) (w : World F.Double)
      → IsTyped m
      → Safe (get_kind F alpha k name m w)
  unfolding get_kind
  get_kind-Safe k none m w t = tt
  get_kind-Safe k (some name) m w t =
      (λ p e. ap some (sym (get_metric-kind k name w.registry p e)), t.1)

  call-Safe : (c : Call) (m : Metric) (w : World F.Double) → IsTyped m → Safe (call F alpha c m w)
  unfolding call
  call-Safe (register k name) m w t = register_kind-Safe k name m w t
  call-Safe (get_existing k name) m w t = get_kind-Safe k name m w t
  call-Safe (update_value none) m w t = tt
  call-Safe (update_value (some val)) m w t =
      assigned-Safe m.assigned _
        (λ p e. typed-Safe timer m p _ (error invalid_type) t e (λ q. t) tt)
  call-Safe (start_duration now) m w t =
      assigned-Safe m.assigned _ (λ p e. start_duration-Safe m p now w t e)
  call-Safe (update_duration now) m w t = with_duration-Safe m false now w t
  call-Safe (finish_duration now) m w t = with_duration-Safe m true now w t
  call-Safe (increments v) m w t = assigned-Safe m.assigned _ (λ p e.
      typed-Safe counter m p _ _ t e (λ q. t)
        (typed-Safe meter m p _ (error invalid_type) t e (λ q. t) tt))
  call-Safe (decrements v) m w t =
      assigned-Safe m.assigned _
        (λ p e. typed-Safe counter m p _ (error invalid_type) t e (λ q. t) tt)
  call-Safe total m w t = assigned-Safe m.assigned _ (λ p e.
      typed-Safe counter m p _ _ t e (λ q. t)
        (typed-Safe meter m p _ (error invalid_type) t e (λ q. t) tt))
  call-Safe reset m w t =
      assigned-Safe m.assigned _
        (λ p e. typed-Safe counter m p _ (error invalid_type) t e (λ q. t) tt)

  -- The calls that a program makes on one object, each in the world as it is by then; without a value
  -- if one of them is a fault. A call that raises an error changes nothing.
  abbrev pub after : Outcome F.Double → Metric → Option Metric
  after (done m w results) before = some m
  after (error e) before = some before
  after fault before = none

  abbrev pub calls_on : Metric → List (World F.Double × Call) → Option Metric
  calls_on m [] = some m
  calls_on m ((w, c) ∷ cs) = elim (after (call F alpha c m w) m) [
    | none ↦ none
    | some next ↦ calls_on next cs
  ]

  after-IsTyped :
      (o : Outcome F.Double) (m : Metric)
      → Safe o
      → IsTyped m
      → (next : Metric) × (after o m ≡ some next) × IsTyped next
  after-IsTyped (done next w results) m s t = (next, refl, s)
  after-IsTyped (error e) m s t = (m, refl, t)
  after-IsTyped fault m s t = absurd s

  calls_on-IsTyped_from :
      (cs : List (World F.Double × Call)) (m : Metric)
      → IsTyped m
      → (last : Metric) × (calls_on m cs ≡ some last) × IsTyped last
  calls_on-IsTyped_from [] m t = (m, refl, t)
  calls_on-IsTyped_from ((w, c) ∷ cs) m t =
      let (next, e, t') = after-IsTyped (call F alpha c m w) m (call-Safe c m w t) t in
      let (last, e', t'') = calls_on-IsTyped_from cs next t' in (last, rw (calls_on, e) e', t'')

  -- No call on a metric object dereferences a null pointer, whatever calls were made on the object
  -- before and whatever others do with the metrics in between; the class of the metric it points to
  -- is always the type that the object has noted, and a duration always has its timer.
  pub calls_on-IsTyped :
      (cs : List (World F.Double × Call))
      → (last : Metric) × (calls_on new_metric cs ≡ some last) × IsTyped last
  unfolding new_metric
  calls_on-IsTyped cs =
      calls_on-IsTyped_from cs new_metric
        (λ p h. ground (arith, h), λ d h. absurd (ground (arith, h)))
