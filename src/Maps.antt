-- ===== src/Maps.antt =====
-- A map with strings as keys, as a list of its entries.
use text.Mathlib.Text.{◌==◌ as str_eq}
use text.Mathlib.TextEquality.{eq_iff}
use Prim.Native.String.{String}
use petrel.Prelude.{◌≡◌, refl, List, [], ◌∷◌, Option, none, some, if◌then◌else◌, arith}

module _ {ℓ} {V : Type ℓ} where
  unfoldable pub lookup : String → List (String × V) → Option V
  lookup name [] = none
  lookup name ((other, v) ∷ ms) = if str_eq other name then some v else lookup name ms

  unfoldable pub assign : String → V → List (String × V) → List (String × V)
  assign name v [] = (name, v) ∷ []
  assign name v ((other, u) ∷ ms) =
      if str_eq other name then (name, v) ∷ ms else (other, u) ∷ assign name v ms

  unfoldable pub erase : String → List (String × V) → List (String × V)
  erase name [] = []
  erase name ((other, v) ∷ ms) =
      let rest = erase name ms in if str_eq other name then rest else (other, v) ∷ rest

  pub lookup-assign :
      (name other : String) (v : V) (ms : List (String × V))
      → lookup other (assign name v ms) ≡ (if str_eq name other then some v else lookup other ms)
  unfolding lookup assign
  lookup-assign name other v [] = refl
  lookup-assign name other v ((n, u) ∷ ms) =
      ground
        (arith, eq_iff n name, eq_iff n other, eq_iff name other, lookup-assign name other v ms)

  pub lookup-erase :
      (name other : String) (ms : List (String × V))
      → lookup other (erase name ms) ≡ (if str_eq name other then none else lookup other ms)
  unfolding lookup erase
  lookup-erase name other [] = ground arith
  lookup-erase name other ((n, u) ∷ ms) =
      ground (arith, eq_iff n name, eq_iff n other, eq_iff name other, lookup-erase name other ms)
