-- ===== src/LuaUtils/Dump.antt =====
-- `dump_stack` of src/core/lua_utils.cpp. The stack is the list of its values, the bottom first.
pub mod Lines
use Prim.Native.String.{String}
use mathlib.Core.List.{append_assoc, append-nil}
use petrel.Prelude.{
  ℕ, zero, suc, ◌+◌, ◌-◌, ◌*◌, ◌<◌, ◌≤◌, ◌≡◌, refl, sym, ap, ◌∙◌, Bool, true, false, ◌&&◌, List, [],
  ◌∷◌, ◌++◌, Option, none, some, ◌==◌, leb, length, length-append, length-take, get_elem?, take,
  element, take_all, if◌then◌else◌, arith,
}
use petrel.LuaUtils.{
  Value, nil, boolean, number, chars, table, c_function, lua_function, light_userdata, userdata,
  thread, Piece, literal, real, pointer, index, lua_state, tagged, endl, white, reset, Written,
  ◌<+>◌, log_plain_noln, print_type_simple, print_table, print_type, print_pointer,
}
use petrel.LuaUtils.Reference.{
  shown, print_table-shown, nothing-join, log_plain_noln-nothing, join-nothing, join_assoc,
  join-log_plain_noln,
}

abbrev pub is_nil : {N : Type 0} → Option (Value N) → Bool
is_nil (some nil) = true
is_nil v = false

-- `lua_remove` at a position counted from 0.
abbrev pub remove_at : {N : Type 0} → ℕ → List (Value N) → List (Value N)
remove_at i [] = []
remove_at zero (v ∷ vs) = vs
remove_at (suc i) (v ∷ vs) = v ∷ remove_at i vs

module _ {N : Type 0} (typename : Value N → String) (entries : ℕ → List (Value N × Value N))
    (filter : ℕ) (topointer : Value N → ℕ) where
  -- What is printed of the value at an index; `none` as well where the stack ends below the index.
  abbrev pub dump_value : ℕ → ℕ → Option (Value N) → Written N
  dump_value fuel i none = none
  dump_value fuel i (some v) =
      log_plain_noln filter 7 (
        tagged 7
        ∷ literal "  "
        ∷ white
        ∷ index i
        ∷ literal ": "
        ∷ reset
        ∷ literal (typename v)
        ∷ literal ": "
        ∷ [])
      <+> print_type typename entries filter topointer fuel v 7 false true (some 1)
      <+> log_plain_noln filter 7 (literal "" ∷ endl ∷ [])

  -- The loop from index `i` down, on the stack; what is written and the stack after it.
  pub dump_loop : ℕ → ℕ → Bool → ℕ → List (Value N) × Written N → List (Value N) × Written N
  dump_loop fuel s nil_at_top zero (stack, w) = (stack, w)
  dump_loop fuel s nil_at_top (suc i) (stack, w) = dump_loop fuel s nil_at_top i (
    (if (suc i == s) && nil_at_top then remove_at i stack else stack),
    w <+> dump_value fuel (suc i) (get_elem? stack i),
  )

  -- `below` is whether `lua_type` gives LUA_TNIL for index 0 of an empty stack, which Lua's manual
  -- does not define.
  pub dump_stack : ℕ → Bool → List (Value N) → List (Value N) × Written N
  unfolding dump_loop
  dump_stack fuel below stack =
      let s = length stack in
      let nil_at_top = if s == 0 then below else is_nil (get_elem? stack (s - 1)) in
      let (left, w) = dump_loop fuel s nil_at_top s (
        stack,
        log_plain_noln filter 7 (tagged 7 ∷ literal "STACK START " ∷ lua_state ∷ endl ∷ []),
      ) in
      (
        (if nil_at_top then left ++ nil ∷ [] else left),
        w <+> log_plain_noln filter 7 (tagged 7 ∷ literal "STACK END " ∷ lua_state ∷ endl ∷ []),
      )
