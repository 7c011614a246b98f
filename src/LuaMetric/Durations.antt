-- ===== src/LuaMetric/Durations.antt =====
-- The type of a metric object over the calls that work on the duration of a timer.
use petrel.Prelude.{
  ℕ, ◌≡◌, refl, sym, ap, ◌∙◌, ◌-◌, inl, inr, Bool-cases, Bool, true, false, [], Option, none, some,
  if◌then◌else◌, arith,
}
use petrel.Metrics.Registry.{Kind, timer, kind_eq, Pointer, cast}
use petrel.Metrics.Timer.{update}
use mathlib.Core.Option.{some-injective}
use petrel.LuaMetric.{
  World, Duration, Metric, Outcome, done, error, fault, update_timer, is_kind, on_cast, at,
  invalid_type, no_duration, with_duration, replace_duration, no_metric,
}

abbrev pub IsTyped : Metric → Type 0
IsTyped m =
    ((p : Pointer) → m.assigned ≡ some p → m.type ≡ some p.kind)
    × ((d : Duration) → m.duration ≡ some d → (p : Pointer) × (d.for_timer ≡ some p))

-- No fault, and the object has its types afterwards.
abbrev pub Safe : {D : Type 0} → Outcome D → Type 0
Safe (done m w results) = IsTyped m
Safe (error e) = Unit
Safe fault = ⊥

with_duration-IsTyped :
    (m : Metric) (d : Duration) (p : Pointer)
    → IsTyped m
    → d.for_timer ≡ some p
    → IsTyped (record m { duration = some d })
with_duration-IsTyped m d p t e =
    (t.0, λ d' h. (p, sym (ap (λ x. x.for_timer) (some-injective d d' h)) ∙ e))

finished_timer :
    (finishes : Bool) (d : Duration)
    → (if finishes then record d { finished = true } else d).for_timer ≡ d.for_timer
finished_timer true d = refl
finished_timer false d = refl

module _ {D : Type 0} where
  -- `if (nullptr == m_metric) luaL_error(…)`
  pub assigned-Safe :
      (o : Option Pointer) (f : Pointer → Outcome D)
      → ((p : Pointer) → o ≡ some p → Safe (f p))
      → Safe {D = D} (elim o [ none ↦ error no_metric | some p ↦ f p ])
  assigned-Safe none f h = tt
  assigned-Safe (some p) f h = h p refl

  -- A cast to the class of the object's type.
  pub typed-Safe :
      (k : Kind) (m : Metric) (p : Pointer) (use_it : Pointer → Outcome D) (else_it : Outcome D)
      → IsTyped m
      → m.assigned ≡ some p
      → ((q : Pointer) → Safe (use_it q))
      → Safe else_it
      → Safe (if is_kind k m.type then on_cast k p use_it else else_it)
  typed-Safe k m p use_it else_it t e u v = rw (t.0 p e) (by_kind (kind_eq p.kind k))
    where
      by_kind :
          (same : Bool)
          → Safe (
              if same
              then elim (if same then some p else none) [ none ↦ fault | some q ↦ use_it q ]
              else else_it)
      by_kind true = u p
      by_kind false = v

  update_timer-some :
      (d : Duration) (now : ℕ) (w : World D) (p : Pointer)
      → d.for_timer ≡ some p
      → (d' : Duration) × (w' : World D) × (update_timer d now w ≡ some (d', w'))
        × (d'.for_timer ≡ some p)
  unfolding update_timer
  update_timer-some d now w p e = elim (Bool-cases d.finished) [
    | inl ended ↦ (d, w, rw ended, e)
    | inr running ↦ (
      record d { start = now },
      record w { timers = at w.timers p.id (update (w.timers p.id) (now - d.start)) },
      ground (arith, running, e),
      e,
    )
  ]

  pub with_duration-Safe :
      (m : Metric) (finishes : Bool) (now : ℕ) (w : World D)
      → IsTyped m
      → Safe (with_duration m finishes now w)
  with_duration-Safe m finishes now w t = by_duration m.duration t.1
    where
      by_duration :
          (o : Option Duration)
          → ((d : Duration) → o ≡ some d → (p : Pointer) × (d.for_timer ≡ some p))
          → Safe (elim o [
            | none ↦ error no_duration
            | some d ↦ elim (update_timer d now w) [
              | none ↦ fault
              | some (d', w') ↦
                  done
                    (record m {
                      duration = some (if finishes then record d' { finished = true } else d');
                    })
                    w'
                    []
            ]
          ])
      by_duration none h = tt
      by_duration (some d) h =
          let (p, e) = h d refl in
          let (d', w', updated, e') = update_timer-some d now w p e in
          let next : Duration = if finishes then record d' { finished = true } else d' in
          rw updated (with_duration-IsTyped m next p t (finished_timer finishes d' ∙ e'))

  replace_duration-Safe :
      (m : Metric) (p : Pointer) (now later : ℕ) (w : World D)
      → IsTyped m
      → Safe (replace_duration m (some p) now later w)
  replace_duration-Safe m p now later w t = by_duration m.duration t.1
    where
      fresh : Duration
      fresh = record { for_timer = some p; start = now; finished = false }

      by_duration :
          (o : Option Duration)
          → ((d : Duration) → o ≡ some d → (q : Pointer) × (d.for_timer ≡ some q))
          → Safe {D = D} (elim o [
            | none ↦ done (record m { duration = some fresh }) w []
            | some old ↦ elim (update_timer old later w) [
              | none ↦ fault
              | some (gone, w') ↦ done (record m { duration = some fresh }) w' []
            ]
          ])
      by_duration none h = with_duration-IsTyped m fresh p t refl
      by_duration (some old) h =
          let (q, e) = h old refl in
          let (gone, w', updated, e') = update_timer-some old later w q e in
          rw updated (with_duration-IsTyped m fresh p t refl)

  pub start_duration-Safe :
      (m : Metric) (p : Pointer) (now : ℕ) (w : World D)
      → IsTyped m
      → m.assigned ≡ some p
      → Safe (
          if is_kind timer m.type
          then replace_duration m (cast timer p) now now w
          else error invalid_type)
  start_duration-Safe m p now w t e = rw same (by_kind (kind_eq p.kind timer))
    where
      same : is_kind timer m.type ≡ kind_eq p.kind timer
      same = ap (is_kind timer) (t.0 p e)

      by_kind :
          (same_kind : Bool)
          → Safe (
              if same_kind
              then replace_duration m (if same_kind then some p else none) now now w
              else error invalid_type)
      by_kind true = replace_duration-Safe m p now now w t
      by_kind false = tt
