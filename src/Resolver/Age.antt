-- ===== src/Resolver/Age.antt =====
-- How old an answer of the cache can be.
use text.Mathlib.TextEquality.{eq_iff}
use Prim.Native.String.{String}
use mathlib.Core.Path.{subst}
use petrel.Prelude.{ℕ, ◌+◌, ◌*◌, ◌<◌, ◌≡◌, ◌⊎◌, inl, inr, List, [], ◌∷◌, some, arith, Option-cases}
use petrel.Maps.{lookup, lookup-assign, lookup-erase}
use petrel.Resolver.{Entry, Cache, check, check_entry, store}

pub data Event (E : Type 0) : Type 0 where
  checks : String → ℕ → Event E
  stores : String → ℕ → List E → Event E

module _ {E : Type 0} where
  unfoldable pub step : Cache E → Event E → Cache E
  step c (checks key now) = (check key now c).0
  step c (stores key now answer) = store key now answer c

  unfoldable pub run : Cache E → List (Event E) → Cache E
  run c [] = c
  run c (e ∷ es) = run (step c e) es

  -- A lookup of the key gave the answer, less than five minutes before `now`.
  abbrev pub Answered : String → ℕ → List E → List (Event E) → Type 0
  Answered key now es [] = ⊥
  Answered key now es (checks k t ∷ evs) = Answered key now es evs
  Answered key now es (stores k t fs ∷ evs) =
      ((k ≡ key) × (fs ≡ es) × (now < t + 300)) ⊎ Answered key now es evs

  -- An entry was there before the events, or was stored by one of them.
  run-lookup :
      (c : Cache E) (evs : List (Event E)) (key : String) (now : ℕ) (e : Entry E)
      → lookup key (run c evs) ≡ some e
      → now < e.expires
      → (lookup key c ≡ some e) ⊎ Answered key now e.entries evs
  unfolding run step check store
  run-lookup c [] key now e h l = inl h
  run-lookup c (checks k t ∷ evs) key now e h l =
      elim (run-lookup (check_entry k t c (lookup k c)).0 evs key now e h l) [
        | inr later ↦ inr later
        | inl kept ↦ inl (ground (arith, Option-cases (lookup k c), lookup-erase k key c))
      ]
  run-lookup c (stores k t fs ∷ evs) key now e h l =
      elim (run-lookup (store k t fs c) evs key now e h l) [
        | inr later ↦ inr (inr later)
        | inl kept ↦ ground (
          arith,
          eq_iff k key,
          lookup-assign k key (record { expires = t + 5 * 60; entries = fs }) c,
        )
      ]

  -- What the cache answers, after any interleaving of the two parts of calls on an empty cache, is
  -- the answer of a lookup of the same key that was made less than five minutes before.
  pub check-Answered :
      (evs : List (Event E)) (key : String) (now : ℕ) (es : List E)
      → (check key now (run [] evs)).1 ≡ some es
      → Answered key now es evs
  unfolding check
  check-Answered evs key now es h = elim (Option-cases (lookup key (run [] evs))) [
    | inl none_there ↦ absurd (ground arith)
    | inr (e, there) ↦
        let fresh : now < e.expires = ground arith in
        let same : e.entries ≡ es = ground arith in
        elim (run-lookup [] evs key now e there fresh) [
          | inl h' ↦ absurd (unfold lookup in ground arith)
          | inr a ↦ subst (λ (l : List E). Answered key now l evs) same a
        ]
  ]
