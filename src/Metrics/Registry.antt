-- ===== src/Metrics/Registry.antt =====
-- `metrics::registry` of src/metrics/registry.h and registry.cpp. A metric object is known by its
-- number, in the order of creation; a pointer to it has its class. The fibers that call `aggregate`
-- are the list of the metrics that they were started for. Options, logging and the connection to
-- graphite are left out.
pub mod Laws
use text.Mathlib.Text.{◌==◌ as str_eq}
use petrel.Prelude.{
  ℕ, zero, suc, ◌+◌, ◌≡◌, Bool, true, false, List, [], ◌∷◌, ◌++◌, Option, none, some, if◌then◌else◌,
}
use Prim.Native.String.{String}
use petrel.Maps.{lookup, assign}

-- The classes derived from `basic_metric`.
pub data Kind : Type 0 where
  counter meter timer : Kind

abbrev pub kind_eq : Kind → Kind → Bool
kind_eq counter counter = true
kind_eq meter meter = true
kind_eq timer timer = true
kind_eq _ _ = false

pub record Pointer : Type 0 where
  pub id : ℕ
  pub kind : Kind

pub record Registry : Type 0 where
  pub metrics : List (String × Pointer)
  pub new_metrics : List Pointer
  pub fibers : List Pointer
  pub created : ℕ

pub new_registry : Registry
new_registry = record { metrics = []; new_metrics = []; fibers = []; created = 0 }

-- `std::dynamic_pointer_cast<T>`
abbrev pub cast : Kind → Pointer → Option Pointer
cast k p = if kind_eq p.kind k then some p else none

pub get_metric : Kind → String → Registry → Option Pointer
unfolding lookup
get_metric k name r = elim (lookup name r.metrics) [ none ↦ none | some p ↦ cast k p ]

-- `std::make_shared<T>()` and what follows it.
pub create_metric : Kind → String → Registry → Registry × Pointer
unfolding assign
create_metric k name r =
    let p : Pointer = record { id = r.created; kind = k } in
    (
      record r {
        metrics = assign name p r.metrics;
        new_metrics = r.new_metrics ++ p ∷ [];
        created = r.created + 1;
      },
      p,
    )

pub register_metric : Kind → String → Registry → Registry × Pointer
unfolding get_metric create_metric
register_metric k name r = elim (get_metric k name r) [
  | none ↦ create_metric k name r
  | some p ↦ (r, p)
]

-- The loop that starts a fiber for each new metric, once a second.
pub start_fibers : List Pointer → Registry → Registry
start_fibers [] r = record r { new_metrics = [] }
start_fibers (p ∷ ps) r =
    start_fibers ps (record r { fibers = r.fibers ++ p ∷ []; new_metrics = ps })

pub check_new_metrics : Registry → Registry
unfolding start_fibers
check_new_metrics r = start_fibers r.new_metrics r
