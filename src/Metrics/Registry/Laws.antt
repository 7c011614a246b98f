-- ===== src/Metrics/Registry/Laws.antt =====
-- What the registry promises.
use text.Mathlib.Text.{◌==◌ as str_eq}
use text.Mathlib.TextEquality.{eq_iff}
use Prim.Native.String.{String}
use petrel.Maps.{lookup, lookup-assign}
use petrel.Prelude.{
  ℕ, zero, suc, ◌≡◌, refl, ap, ◌∙◌, true, false, List, [], ◌∷◌, ◌++◌, map, none, some, arith,
  Option-cases, inl, inr,
}
use mathlib.Core.List.{append-nil, append_assoc, map-append}
use native.Mathlib.Numerals.{add-one}
use petrel.Metrics.Registry.{
  Kind, kind_eq, counter, meter, timer, Pointer, Registry, new_registry, get_metric, create_metric,
  register_metric, start_fibers, check_new_metrics,
}

kind_eq_refl : (k : Kind) → kind_eq k k ≡ true
kind_eq_refl counter = refl
kind_eq_refl meter = refl
kind_eq_refl timer = refl

kind_eq-eq : (k l : Kind) → kind_eq k l ≡ true → k ≡ l
kind_eq-eq k l h = ground arith

-- Registering a name gives a metric of the class asked for, under which the name is found from then
-- on; registering it again for the same class gives the same metric and leaves the registry as it
-- is; what is found under other names stays.
pub record Registered (k : Kind) (name : String) (r : Registry) : Type 0 where
  pub found : get_metric k name (register_metric k name r).0 ≡ some (register_metric k name r).1
  pub right_class : (register_metric k name r).1.kind ≡ k
  pub again : register_metric k name (register_metric k name r).0 ≡ register_metric k name r
  pub others :
      (j : Kind) (other : String)
      → str_eq name other ≡ false
      → get_metric j other (register_metric k name r).0 ≡ get_metric j other r

create_found :
    (k : Kind) (name : String) (r : Registry)
    → get_metric k name (create_metric k name r).0 ≡ some (create_metric k name r).1
unfolding get_metric create_metric
create_found k name r = ground (
  arith,
  kind_eq_refl k,
  eq_iff name name,
  lookup-assign name name (record { id = r.created; kind = k }) r.metrics,
)

create_others :
    (k j : Kind) (name other : String) (r : Registry)
    → str_eq name other ≡ false
    → get_metric j other (create_metric k name r).0 ≡ get_metric j other r
unfolding get_metric create_metric
create_others k j name other r h =
    ground (arith, lookup-assign name other (record { id = r.created; kind = k }) r.metrics)

register-some :
    (k : Kind) (name : String) (r : Registry) (p : Pointer)
    → get_metric k name r ≡ some p
    → register_metric k name r ≡ (r, p)
unfolding register_metric
register-some k name r p e = rw (e, register_metric)

register-none :
    (k : Kind) (name : String) (r : Registry)
    → get_metric k name r ≡ none
    → register_metric k name r ≡ create_metric k name r
unfolding register_metric
register-none k name r e = rw (e, register_metric)

pub get_metric-kind :
    (k : Kind) (name : String) (r : Registry) (p : Pointer)
    → get_metric k name r ≡ some p
    → p.kind ≡ k
unfolding get_metric
get_metric-kind k name r p e = ground (arith, Option-cases (lookup name r.metrics))

-- Registering a name for a class gives a metric of that class, which is found under the name right
-- after it; registering it again then changes nothing, and other names keep their metrics.
pub register_metric-Registered : (k : Kind) (name : String) (r : Registry) → Registered k name r
register_metric-Registered k name r = elim (Option-cases (get_metric k name r)) [
  | inl missing ↦
      let e = register-none k name r missing in
      let found = create_found k name r in
      record {
        found = rw e found;
        right_class = rw e (unfold create_metric in refl);
        again =
            rw e (register-some k name (create_metric k name r).0 (create_metric k name r).1 found);
        others = λ j other h. rw e (create_others k j name other r h);
      }
  | inr (p, there) ↦
      let e = register-some k name r p there in
      record {
        found = rw e there;
        right_class = rw e (get_metric-kind k name r p there);
        again = rw e e;
        others = λ j other h. rw e;
      }
]

-- A sequence of registrations and of checks for new metrics.
pub data Call : Type 0 where
  registers : Kind → String → Call
  checks : Call

pub step : Registry → Call → Registry
step r (registers k name) = (register_metric k name r).0
step r checks = check_new_metrics r

pub run : Registry → List Call → Registry
run r [] = r
run r (c ∷ cs) = run (step r c) cs

-- 0, 1, …, n - 1
abbrev pub numbers : ℕ → List ℕ
numbers zero = []
numbers (suc n) = numbers n ++ n ∷ []

abbrev pub ids : List Pointer → List ℕ
ids = map λ p. p.id

-- Each metric that was created has a fiber or waits for one, in the order of creation.
abbrev pub AllCounted : Registry → Type 0
AllCounted r = ids (r.fibers ++ r.new_metrics) ≡ numbers r.created

start_fibers_lem :
    (ps : List Pointer) (r : Registry)
    → start_fibers ps r ≡ record r { fibers = r.fibers ++ ps; new_metrics = [] }
unfolding start_fibers
start_fibers_lem [] r = rw append-nil
start_fibers_lem (p ∷ ps) r =
    start_fibers_lem ps (record r { fibers = r.fibers ++ p ∷ []; new_metrics = ps })
    ∙ rw append_assoc

check-AllCounted : (r : Registry) → AllCounted r → AllCounted (check_new_metrics r)
unfolding check_new_metrics
check-AllCounted r h = rw (start_fibers_lem r.new_metrics r) (rw append-nil h)

create-AllCounted :
    (k : Kind) (name : String) (r : Registry) → AllCounted r → AllCounted (create_metric k name r).0
unfolding create_metric
create-AllCounted k name r h =
    rw (← append_assoc, map-append, add-one) (ap (λ l. l ++ r.created ∷ []) h)

register-AllCounted :
    (k : Kind) (name : String) (r : Registry)
    → AllCounted r
    → AllCounted (register_metric k name r).0
register-AllCounted k name r h = elim (Option-cases (get_metric k name r)) [
  | inl missing ↦ rw (register-none k name r missing) (create-AllCounted k name r h)
  | inr (p, there) ↦ rw (register-some k name r p there) h
]

run-AllCounted : (r : Registry) (cs : List Call) → AllCounted r → AllCounted (run r cs)
unfolding run step
run-AllCounted r [] h = h
run-AllCounted r (registers k name ∷ cs) h =
    run-AllCounted (register_metric k name r).0 cs (register-AllCounted k name r h)
run-AllCounted r (checks ∷ cs) h = run-AllCounted (check_new_metrics r) cs (check-AllCounted r h)

-- After any registrations and checks on a new registry, a check leaves no metric without a fiber:
-- the fibers are those of exactly the metrics created, each once, in the order of creation.
pub run-check_fibers :
    (cs : List Call)
    → let r = check_new_metrics (run new_registry cs) in
      (r.new_metrics ≡ []) × (ids r.fibers ≡ numbers r.created)
unfolding new_registry check_new_metrics
run-check_fibers cs =
    let r = run new_registry cs in
    let h : AllCounted r = run-AllCounted new_registry cs (unfold new_registry in refl) in
    rw (start_fibers_lem r.new_metrics r) (refl, h)
