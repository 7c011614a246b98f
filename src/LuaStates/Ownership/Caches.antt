-- ===== src/LuaStates/Ownership/Caches.antt =====
-- How the operations on the caches move states.
use petrel.Prelude.{
  Bool, false, ◌∙◌, member, ℕ, zero, suc, ◌+◌, ◌<◌, ◌≡◌, refl, ap, true, List, [], ◌∷◌, Option,
  none, some, ◌==◌, length, get_elem?, set, count, if◌then◌else◌, arith, Option-cases,
}
use petrel.LuaStates.{
  Creation, ok, ready, get_state, free_state, Manager, local, set_objects, destroy_state,
  take_shared, take_from, take_state, put, destroy_all,
}
use petrel.LuaStates.Ownership.{cached, count_local, remove}

pub count_local-set :
    (a thread : ℕ) (cs : List (Option (List ℕ))) (old new : Option (List ℕ))
    → get_elem? cs thread ≡ some old
    → count_local a (set cs thread new) + count a (cached old)
      ≡ count_local a cs + count a (cached new)
count_local-set a thread [] old new e = cc
count_local-set a zero (c ∷ cs) old new e = ground arith
count_local-set a (suc thread) (c ∷ cs) old new e =
    omega (arith, count_local-set a thread cs old new e)

pub local-some :
    (m : Manager) (thread : ℕ) (ls : List ℕ)
    → local m thread ≡ some ls
    → get_elem? m.state_cache_local thread ≡ some (some ls)
local-some m thread ls e = ground (arith, Option-cases (get_elem? m.state_cache_local thread))

-- The owners that the manager itself knows of.
abbrev pub known : ℕ → Manager → ℕ
known a m = count a m.state_cache + count_local a m.state_cache_local + count a m.closed

abbrev pub caches : ℕ → Manager → ℕ
caches a m = count a m.state_cache + count_local a m.state_cache_local

abbrev pub listed : Option ℕ → List ℕ
listed none = []
listed (some l) = l ∷ []

-- Taking a state out of a cache changes nothing else.
pub record Takes (m : Manager) (r : Manager × Option ℕ) : Type 0 where
  pub moved : (a : ℕ) → caches a r.0 + count a (listed r.1) ≡ caches a m
  pub same_closed : r.0.closed ≡ m.closed
  pub same_created : r.0.created ≡ m.created
  pub same_objects : r.0.objects ≡ m.objects

pub shared-Takes : (ls : List ℕ) (m : Manager) → m.state_cache ≡ ls → Takes m (take_shared ls m)
shared-Takes [] m f = record {
  moved = λ a. omega arith;
  same_closed = refl;
  same_created = refl;
  same_objects = refl;
}
shared-Takes (l ∷ ls) m f = record {
  moved = λ a. omega (arith, ap (count a) f);
  same_closed = refl;
  same_created = refl;
  same_objects = refl;
}

pub from-Takes :
    (c : Option (List ℕ)) (thread : ℕ) (m : Manager)
    → local m thread ≡ c
    → Takes m (take_from c thread m)
from-Takes none thread m e = shared-Takes m.state_cache m refl
from-Takes (some []) thread m e = shared-Takes m.state_cache m refl
from-Takes (some (l ∷ ls)) thread m e = record {
  moved = λ a. omega (
    arith,
    count_local-set a thread m.state_cache_local (some (l ∷ ls)) (some ls)
        (local-some m thread (l ∷ ls) e),
  );
  same_closed = refl;
  same_created = refl;
  same_objects = refl;
}

pub take_state-Takes : (thread : ℕ) (m : Manager) → Takes m (take_state thread m)
unfolding take_state
take_state-Takes thread m = from-Takes (local m thread) thread m refl

pub count-remove :
    (a b : ℕ) (xs : List ℕ)
    → member b xs ≡ true
    → count a (remove b xs) + (if b == a then 1 else 0) ≡ count a xs
count-remove a b [] h = cc
count-remove a b (x ∷ xs) h = ground (arith, count-remove a b xs)

pub member-count : (a : ℕ) (xs : List ℕ) → member a xs ≡ true → 0 < count a xs
member-count a [] h = cc
member-count a (x ∷ xs) h = ground (arith, member-count a xs)

-- Giving a state to a cache changes nothing else.
pub record Gives (m m' : Manager) (l : ℕ) : Type 0 where
  pub moved : (a : ℕ) → caches a m' ≡ caches a m + count a (l ∷ [])
  pub same_closed : m'.closed ≡ m.closed
  pub same_created : m'.created ≡ m.created
  pub cleared : m'.objects ≡ set_objects m.objects l []

pub put-Gives :
    (c : Option (List ℕ)) (thread l : ℕ) (m : Manager)
    → local m thread ≡ c
    → Gives m (put c thread l (record m { objects = set_objects m.objects l [] })) l
put-Gives none thread l m e = record {
  moved = λ a. omega arith;
  same_closed = refl;
  same_created = refl;
  cleared = refl;
}
put-Gives (some ls) thread l m e = record {
  moved = λ a. omega (
    arith,
    count_local-set a thread m.state_cache_local (some ls) (some (l ∷ ls))
        (local-some m thread ls e),
  );
  same_closed = refl;
  same_created = refl;
  cleared = refl;
}

-- A thread that is in the list has an entry, which `local` shows.
pub local_in_range :
    (thread : ℕ) (cs : List (Option (List ℕ)))
    → thread < length cs
    → get_elem? cs thread ≡ some (elim (get_elem? cs thread) [ none ↦ none | some cache ↦ cache ])
local_in_range thread [] h = elim h [ ]
local_in_range zero (c ∷ cs) h = refl
local_in_range (suc thread) (c ∷ cs) h = local_in_range thread cs (omega arith)

-- Destroying states closes them, and clears their objects.
pub record Destroys (m m' : Manager) (ls : List ℕ) : Type 0 where
  pub closes : (a : ℕ) → count a m'.closed ≡ count a m.closed + count a ls
  pub same_cache : m'.state_cache ≡ m.state_cache
  pub same_local : m'.state_cache_local ≡ m.state_cache_local
  pub same_created : m'.created ≡ m.created
  pub clears : (a : ℕ) → m.objects a ≡ [] → m'.objects a ≡ []

pub destroy_all-Destroys : (ls : List ℕ) (m : Manager) → Destroys m (destroy_all ls m) ls
unfolding destroy_all destroy_state
destroy_all-Destroys [] m = record {
  closes = λ a. omega arith;
  same_cache = refl;
  same_local = refl;
  same_created = refl;
  clears = λ a h. h;
}
destroy_all-Destroys (l ∷ ls) m =
    let d = destroy_all-Destroys ls (destroy_state l m) in
    record {
      closes = λ a. omega (arith, d.closes a);
      same_cache = d.same_cache;
      same_local = d.same_local;
      same_created = d.same_created;
      clears = λ a h. d.clears a (ground arith);
    }

pub free_state-Gives : (thread l : ℕ) (m : Manager) → Gives m (free_state thread l m) l
unfolding free_state
free_state-Gives thread l m = put-Gives (local m thread) thread l m refl

take_state-dev_mode : (thread : ℕ) (m : Manager) → (take_state thread m).0.dev_mode ≡ m.dev_mode
unfolding take_state
take_state-dev_mode thread m = from (local m thread)
  where
    shared : (ls : List ℕ) → (take_shared ls m).0.dev_mode ≡ m.dev_mode
    shared [] = refl
    shared (l ∷ ls) = refl

    from : (c : Option (List ℕ)) → (take_from c thread m).0.dev_mode ≡ m.dev_mode
    from none = shared m.state_cache
    from (some []) = shared m.state_cache
    from (some (l ∷ ls)) = refl

-- Outside of dev mode `get_state` returns a state that was in a cache.
pub get_state-taken :
    (thread : ℕ) (creation : Creation) (reloads : Bool) (m : Manager) (l : ℕ)
    → m.dev_mode ≡ false
    → (take_state thread m).1 ≡ some l
    → get_state thread creation reloads m ≡ ((take_state thread m).0, ok l)
unfolding get_state
get_state-taken thread creation reloads m l d t =
    is_ready (take_state thread m).0 (take_state thread m).1 (take_state-dev_mode thread m ∙ d) t
  where
    is_ready :
        (n : Manager) (o : Option ℕ)
        → n.dev_mode ≡ false
        → o ≡ some l
        → ready creation reloads (n, o) ≡ (n, ok l)
    is_ready n none d t = cc
    is_ready n (some k) d t = ground arith
