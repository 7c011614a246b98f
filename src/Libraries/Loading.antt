-- ===== src/Libraries/Loading.antt =====
-- What `load_libs` promises of each registered library.
use Prim.Native.String.{String}
use text.Mathlib.Text.{◌==◌ as str_eq}
use petrel.Prelude.{ℕ, ◌+◌, ◌≡◌, Bool, true, false, List, [], ◌∷◌, none, some, if◌then◌else◌, ◌⊎◌}
use petrel.Maps.{lookup}
use petrel.Libraries.{Reg, LuaState, module_table, lua_requiref}

abbrev pub occurrences : String → List String → ℕ
occurrences name [] = 0
occurrences name (other ∷ names) = (if str_eq other name then 1 else 0) + occurrences name names

abbrev pub is_named : String → List Reg → Bool
is_named name [] = false
is_named name (reg ∷ regs) = if str_eq reg.name name then true else is_named name regs

-- The module number `m` is in the registry under a name and is the global of that name.
abbrev pub IsModule : String → ℕ → LuaState → Type 0
IsModule name m s =
    (lookup name s.registry ≡ some m) × (lookup name s.globals ≡ some (module_table m))

abbrev pub Called : List (ℕ × ℕ) → ℕ → ℕ → Type 0
Called [] f m = ⊥
Called ((g, n) ∷ calls) f m = ((g ≡ f) × (n ≡ m)) ⊎ Called calls f m

abbrev pub missing : String → LuaState → ℕ
missing name s = elim (lookup name s.registry) [ none ↦ 1 | some m ↦ 0 ]

-- The state behind the init function of a library.
abbrev loaded : Reg → LuaState → LuaState
loaded reg s =
    let (t, m) = lua_requiref reg.name s in record t { inits = (reg.init_func, m) ∷ t.inits }
