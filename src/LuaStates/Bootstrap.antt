-- ===== src/LuaStates/Bootstrap.antt =====
-- `lua_engine::bootstrap` of src/core/lua_engine.cpp: a state of its own, in which the bootstrap
-- function is called before any thread runs. What the function does is an argument; the routes that
-- it adds are an argument of `init` in Setup.
use petrel.Prelude.{ℕ, Bool, true, false, List}
use petrel.LuaStates.{
  Manager, Creation, Result, ok, throws, set_objects, create_state, destroy_state,
}

-- What the call comes to, with the library objects that it makes.
pub data Boot : Type 0 where
  no_function : Boot
  fails : List ℕ → Boot
  runs : List ℕ → Boot

-- The rest of `bootstrap` once it has a state; the flag says that it throws.
abbrev pub boot_in : Boot → Manager × Result → Manager × Bool
boot_in boot (m, throws) = (m, true)
boot_in no_function (m, ok l) = (m, true)
boot_in (fails objs) (m, ok l) = (record m { objects = set_objects m.objects l objs }, true)
boot_in (runs objs) (m, ok l) =
    (destroy_state l (record m { objects = set_objects m.objects l objs }), false)

unfoldable pub bootstrap : Creation → Boot → Manager → Manager × Bool
bootstrap creation boot m = boot_in boot (create_state creation m)
