-- ===== src/LuaStates/Watcher.antt =====
-- The size of the shared cache after a round of the watcher of src/core/lua_state_manager.cpp.
use petrel.Prelude.{
  ℕ, zero, suc, ◌+◌, ◌-◌, ◌≤◌, ◌<◌, ◌≡◌, ◌≢◌, refl, ap, ◌∙◌, [], ◌∷◌, length, arith,
}
use Prim.Native.Nat.{max}
use petrel.LuaStates.{
  Creation-discrete, set_objects, Manager, Creation, no_memory, load_fails, loads, create_state,
  push_created, to_create, rounds, watch_loop, watch,
}

-- The conversions from int to size_t to uint32 to int come out as the states that are missing, and
-- as no rounds if there are too many.
rounds-to_create :
    (buffer_size size : ℕ)
    → buffer_size < 2147483648
    → size < 2147483648
    → rounds (to_create buffer_size size) ≡ buffer_size - size
unfolding rounds to_create
rounds-to_create buffer_size size b s = ground arith

-- The manager when a state was created.
abbrev made : Manager → Manager
made m = record m { created = m.created + 1; objects = set_objects m.objects m.created [] }

-- The state, pushed into the shared cache of the manager as it is by then.
abbrev pushed : (Manager → Manager) → Manager → Manager
pushed others m = let k = others (made m) in record k { state_cache = m.created ∷ k.state_cache }

-- Other threads do not make the shared cache longer, or leave its length as it is.
abbrev pub OnlyTake : (ℕ → Manager → Manager) → Type 0
OnlyTake others = (i : ℕ) (m : Manager) → length (others i m).state_cache ≤ length m.state_cache

abbrev pub Balanced : (ℕ → Manager → Manager) → Type 0
Balanced others = (i : ℕ) (m : Manager) → length (others i m).state_cache ≡ length m.state_cache

module _ (creation : ℕ → Creation) (others : ℕ → Manager → Manager) where
  watch_loop-loads :
      (n : ℕ) (m : Manager)
      → creation n ≡ loads
      → watch_loop (suc n) creation others m ≡ watch_loop n creation others (pushed (others n) m)
  unfolding watch_loop create_state
  watch_loop-loads n m e =
      ap (λ c. push_created (others n) (watch_loop n creation others) (create_state c m)) e

  watch_loop-throws :
      (n : ℕ) (m : Manager)
      → creation n ≢ loads
      → (watch_loop (suc n) creation others m).state_cache ≡ m.state_cache
  watch_loop-throws n m ne = go (creation n) refl
    where
      go :
          (c : Creation)
          → creation n ≡ c
          → (watch_loop (suc n) creation others m).state_cache ≡ m.state_cache
      go no_memory e =
          unfold watch_loop create_state in
          ap
            (λ c.
              (push_created (others n) (watch_loop n creation others)
                (create_state c m)).state_cache)
            e
      go load_fails e =
          unfold watch_loop create_state in
          ap
            (λ c.
              (push_created (others n) (watch_loop n creation others)
                (create_state c m)).state_cache)
            e
      go loads e = absurd (ne e)

  watch_loop_size :
      (n : ℕ) (m : Manager)
      → Balanced others
      → ((i : ℕ) → i < n → creation i ≡ loads)
      → length (watch_loop n creation others m).state_cache ≡ length m.state_cache + n
  unfolding watch_loop
  watch_loop_size zero m b h = omega arith
  watch_loop_size (suc n) m b h =
      ap (λ k. length k.state_cache) (watch_loop-loads n m (h n (omega arith)))
      ∙ omega (
        arith,
        watch_loop_size n (pushed (others n) m) b (λ i lt. h i (omega arith)),
        b n (made m),
      )

  watch_loop_bound :
      (n : ℕ) (m : Manager)
      → OnlyTake others
      → length (watch_loop n creation others m).state_cache ≤ length m.state_cache + n
  unfolding watch_loop
  watch_loop_bound zero m t = omega arith
  watch_loop_bound (suc n) m t = elim (Creation-discrete (creation n) loads) [
    | yes e ↦ omega (
      arith,
      ap (λ k. length k.state_cache) (watch_loop-loads n m e),
      watch_loop_bound n (pushed (others n) m) t,
      t n (made m),
    )
    | no e ↦ omega (arith, ap (length {A = ℕ}) (watch_loop-throws n m e))
  ]

-- If what other threads do during a round of the watcher never makes the shared cache longer, the
-- round leaves at most the configured number of states in it, or as many as there were before if
-- they were more. If the other threads leave its length as it is and every creation succeeds, the
-- round leaves exactly that many. The numbers are below 2^31.
pub watch_size :
    (buffer_size : ℕ) (creation : ℕ → Creation) (others : ℕ → Manager → Manager) (m : Manager)
    → buffer_size < 2147483648
    → length m.state_cache < 2147483648
    → OnlyTake others
    → (length (watch buffer_size creation others m).state_cache
        ≤ max buffer_size (length m.state_cache))
      × (Balanced others
          → ((i : ℕ) → i < buffer_size → creation i ≡ loads)
          → length (watch buffer_size creation others m).state_cache
            ≡ max buffer_size (length m.state_cache))
unfolding watch
watch_size buffer_size creation others m b s t =
    let size = length m.state_cache in
    let n = rounds (to_create buffer_size size) in
    let e : n ≡ buffer_size - size = rounds-to_create buffer_size size b s in
    (
      omega (arith, watch_loop_bound creation others n m t, e),
      λ balanced h.
          omega (
            arith,
            watch_loop_size creation others n m balanced (λ i lt. h i (omega (arith, e))),
            e,
          ),
    )
