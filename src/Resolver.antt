-- ===== src/Resolver.antt =====
-- `resolver_cache::async_resolve` of src/core/resolver_cache.h. Each of its two locked parts is a step, as
-- other fibers and threads can run between them; the DNS lookup that stands between them is an
-- argument. A time is in seconds.
pub mod Age
mod Tests
use Prim.Native.String.{String}
use Prim.Native.String.{◌++◌ as join}
use petrel.Prelude.{
  ℕ, ◌+◌, ◌*◌, ◌≡◌, Bool, true, false, List, [], ◌∷◌, Option, none, some, ltb, if◌then◌else◌,
}
use petrel.Maps.{lookup, assign, erase}

pub record Entry (E : Type 0) : Type 0 where
  pub expires : ℕ
  pub entries : List E

abbrev pub Cache : Type 0 → Type 0
Cache E = List (String × Entry E)

abbrev pub key_of : String → String → String
key_of host service = join (join host ":") service

module _ {E : Type 0} where
  abbrev pub check_entry : String → ℕ → Cache E → Option (Entry E) → Cache E × Option (List E)
  check_entry key now c none = (c, none)
  check_entry key now c (some e) =
      if ltb now e.expires then (c, some e.entries) else (erase key c, none)

  -- The first part: the entries of the cache, unless there are none or they have expired.
  unfoldable pub check : String → ℕ → Cache E → Cache E × Option (List E)
  check key now c = check_entry key now c (lookup key c)

  -- The second part, with the answer of the lookup that was made after `check` at `now`.
  unfoldable pub store : String → ℕ → List E → Cache E → Cache E
  store key now answer c = assign key (record { expires = now + 5 * 60; entries = answer }) c

  abbrev pub resolve_missing :
      String → ℕ → Option (List E) → Cache E × Option (List E) → Cache E × Option (List E)
  resolve_missing key now answer (c, some es) = (c, some es)
  resolve_missing key now none (c, none) = (c, none)
  resolve_missing key now (some es) (c, none) = (store key now es c, some es)

  -- The whole method with nothing in between; `none` is an exception of the lookup.
  unfoldable pub async_resolve :
      String → String → ℕ → Option (List E) → Cache E → Cache E × Option (List E)
  async_resolve host service now answer c =
      resolve_missing (key_of host service) now answer (check (key_of host service) now c)
