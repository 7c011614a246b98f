-- ===== src/LuaStates/Ownership/Steps.antt =====
-- The owners of the states, and the caches, over one event.
use mathlib.Core.Path.{subst}
use mathlib.Core.Option.{some-injective}
use petrel.Prelude.{
  member, count-append, ℕ, ◌+◌, ◌<◌, ◌≡◌, refl, ap, inl, inr, Bool, true, List, [], ◌∷◌, ◌++◌,
  Option, none, some, ltb, length, get_elem?, set, count, arith, Option-cases, Bool-cases,
}
use petrel.LuaStates.{
  Manager, Creation, no_memory, load_fails, loads, local, set_local, set_objects, create_state,
  destroy_state, take_state, ready, get_state, free_state, register_io_service, destroy_all,
  unregister_io_service,
}
use petrel.LuaStates.Bootstrap.{Boot, no_function, fails, runs, bootstrap}
use petrel.LuaStates.Ownership.{
  cached, count_local, World, Event, gets, adds, frees, pushes, registers, unregisters, boots,
  abandons, remove, loses, settle, settle_push, step, IsValid,
}
use petrel.LuaStates.Ownership.Caches.{
  count_local-set, local-some, Takes, take_state-Takes, count-remove, member-count, put-Gives,
  local_in_range, destroy_all-Destroys,
}

pub gets-IsValid :
    (w : World) (thread : ℕ) (creation : Creation) (reloads : Bool) (t : Manager × Option ℕ)
    → Takes w.manager t
    → IsValid w
    → IsValid (settle w (loses t.1 creation w.manager.created) (ready creation reloads t))
unfolding create_state
gets-IsValid w thread no_memory reloads (m, none) k v = record {
  owned = λ a. ground (arith, k.moved a, k.same_closed, k.same_created, v.owned a);
  clean = λ a h. ground (arith, k.moved a, k.same_objects, v.clean a);
}
gets-IsValid w thread load_fails reloads (m, none) k v = record {
  owned = λ a. ground (arith, k.moved a, k.same_closed, k.same_created, v.owned a);
  clean = λ a h. ground (arith, k.moved a, k.same_objects, v.clean a);
}
gets-IsValid w thread loads reloads (m, none) k v = record {
  owned = λ a. ground (arith, k.moved a, k.same_closed, k.same_created, v.owned a);
  clean = λ a h. ground (arith, k.moved a, k.same_objects, v.clean a);
}
gets-IsValid w thread creation reloads (m, some l) k v = elim (Bool-cases m.dev_mode) [
  | inl dev ↦ elim (Bool-cases reloads) [
    | inl fine ↦ simp (dev, fine) taken
    | inr failed ↦ simp (dev, failed) forgotten
  ]
  | inr plain ↦ simp plain taken
]
  where
    taken : IsValid (record w { manager = m; held = l ∷ w.held })
    taken = record {
      owned = λ a. ground (arith, k.moved a, k.same_closed, k.same_created, v.owned a);
      clean = λ a h. ground (arith, k.moved a, k.same_objects, v.clean a);
    }

    forgotten : IsValid (record w { manager = m; lost = l ∷ w.lost })
    forgotten = record {
      owned = λ a. ground (arith, k.moved a, k.same_closed, k.same_created, v.owned a);
      clean = λ a h. ground (arith, k.moved a, k.same_objects, v.clean a);
    }

pub frees-IsValid :
    (w : World) (thread l : ℕ)
    → member l w.held ≡ true
    → IsValid w
    → IsValid (record w { manager = free_state thread l w.manager; held = remove l w.held })
unfolding free_state
frees-IsValid w thread l h v =
    let g = put-Gives (local w.manager thread) thread l w.manager refl in
    record {
      owned = λ a.
          ground
            (arith, g.moved a, g.same_closed, g.same_created, v.owned a, count-remove a l w.held h);
      clean =
          λ a there. ground (arith, g.moved a, ap (λ (o : ℕ → List ℕ). o a) g.cleared, v.clean a);
    }

pub adds-IsValid :
    (w : World) (l obj : ℕ)
    → member l w.held ≡ true
    → IsValid w
    → IsValid (record w {
      manager = record w.manager {
        objects = set_objects w.manager.objects l (obj ∷ w.manager.objects l);
      };
    })
adds-IsValid w l obj h v = record {
  owned = v.owned;
  clean = λ a there. ground (arith, v.owned a, v.clean a, member-count l w.held h);
}

pub pushes-IsValid :
    (w : World) (creation : Creation)
    → IsValid w
    → IsValid
        (settle_push w (loses none creation w.manager.created) (create_state creation w.manager))
unfolding create_state
pushes-IsValid w no_memory v = v
pushes-IsValid w load_fails v = record {
  owned = λ a. ground (arith, v.owned a);
  clean = λ a h. ground (arith, v.clean a);
}
pushes-IsValid w loads v = record {
  owned = λ a. ground (arith, v.owned a);
  clean = λ a h. ground (arith, v.clean a);
}

pub registers-IsValid :
    (w : World) (thread : ℕ)
    → thread < length w.manager.state_cache_local
    → IsValid w
    → IsValid (record w {
      manager = register_io_service thread w.manager;
      lost = cached (local w.manager thread) ++ w.lost;
    })
unfolding register_io_service
registers-IsValid w thread h v =
    let cs = w.manager.state_cache_local in
    let old = local w.manager thread in
    let there : get_elem? cs thread ≡ some old = local_in_range thread cs h in
    record {
      owned = λ a. omega (
        arith,
        v.owned a,
        count_local-set a thread cs old (some []) there,
        count-append a (cached old) w.lost,
      );
      clean = λ a h'. v.clean a (omega (arith, count_local-set a thread cs old (some []) there));
    }

pub unregisters-IsValid :
    (w : World) (thread : ℕ) (ls : List ℕ)
    → local w.manager thread ≡ some ls
    → IsValid w
    → IsValid (record w { manager = set_local (destroy_all ls w.manager) thread none })
unregisters-IsValid w thread ls e v =
    let d = destroy_all-Destroys ls w.manager in
    let there = local-some w.manager thread ls e in
    let moved : (a : ℕ)
        → count_local a (set (destroy_all ls w.manager).state_cache_local thread none) + count a ls
          ≡ count_local a w.manager.state_cache_local =
      λ a. rw d.same_local (
        omega (arith, count_local-set a thread w.manager.state_cache_local (some ls) none there)) in
    record {
      owned = λ a.
          ground (arith, v.owned a, moved a, d.closes a, ap (count a) d.same_cache, d.same_created);
      clean = λ a h. d.clears a (v.clean a (omega (arith, moved a, ap (count a) d.same_cache)));
    }

pub boots-IsValid :
    (w : World) (creation : Creation) (boot : Boot)
    → IsValid w
    → IsValid (record w {
      manager = (bootstrap creation boot w.manager).0;
      lost = abandons creation boot w.manager.created ++ w.lost;
    })
unfolding bootstrap create_state destroy_state
boots-IsValid w no_memory boot v = v
boots-IsValid w load_fails boot v = record {
  owned = λ a. ground (arith, v.owned a);
  clean = λ a h. v.clean a h;
}
boots-IsValid w loads no_function v = record {
  owned = λ a. ground (arith, v.owned a);
  clean = λ a h. ground (arith, v.clean a);
}
boots-IsValid w loads (fails objs) v = record {
  owned = λ a. ground (arith, v.owned a);
  clean = λ a h. ground (arith, v.owned a, v.clean a);
}
boots-IsValid w loads (runs objs) v = record {
  owned = λ a. ground (arith, v.owned a);
  clean = λ a h. ground (arith, v.clean a);
}

pub step-IsValid : (w w' : World) (e : Event) → IsValid w → step w e ≡ some w' → IsValid w'
unfolding step get_state unregister_io_service
step-IsValid w w' (gets thread creation reloads) v e = subst IsValid (some-injective _ _ e) (
    gets-IsValid w thread creation reloads (take_state thread w.manager)
      (take_state-Takes thread w.manager) v)
step-IsValid w w' (adds l obj) v e = elim (Bool-cases (member l w.held)) [
  | inl h ↦ subst IsValid (ground arith) (adds-IsValid w l obj h v)
  | inr h ↦ absurd (ground arith)
]
step-IsValid w w' (frees thread l) v e = elim (Bool-cases (member l w.held)) [
  | inl h ↦ subst IsValid (ground arith) (frees-IsValid w thread l h v)
  | inr h ↦ absurd (ground arith)
]
step-IsValid w w' (pushes creation) v e =
    subst IsValid (some-injective _ _ e) (pushes-IsValid w creation v)
step-IsValid w w' (registers thread) v e =
    elim (Bool-cases (ltb thread (length w.manager.state_cache_local))) [
      | inl h ↦ subst IsValid (ground arith) (registers-IsValid w thread (ground arith) v)
      | inr h ↦ absurd (ground arith)
    ]
step-IsValid w w' (unregisters thread) v e = elim (Option-cases (local w.manager thread)) [
  | inl h ↦ absurd (ground arith)
  | inr (ls, h) ↦ subst IsValid (ground arith) (unregisters-IsValid w thread ls h v)
]
step-IsValid w w' (boots creation boot) v e =
    subst IsValid (some-injective _ _ e) (boots-IsValid w creation boot v)
