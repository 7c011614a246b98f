-- ===== src/LuaUtils.antt =====
-- The printing functions of src/core/lua_utils.cpp. Lua's C interface is an argument: the name of
-- a value's type, its address, and what a traversal of a table with `lua_next` finds. A table is
-- known by a number, so tables may contain each other. What is written to the log is a list of the
-- values given to `<<`. `print_table` calls itself for nested tables: it runs on fuel.
pub mod Reference
pub mod Dump
pub mod Scripts
mod Tests
use Prim.Native.String.{String}
use petrel.Prelude.{
  ℕ, zero, suc, ◌+◌, Bool, true, false, ◌||◌, List, [], ◌∷◌, ◌++◌, Option, none, some, ltb, leb,
  if◌then◌else◌,
}

-- The numbers of Lua are doubles; their type is `N`.
pub data Value (N : Type 0) : Type 0 where
  nil : Value N
  boolean : Bool → Value N
  number : N → Value N
  chars : String → Value N
  table c_function lua_function light_userdata userdata thread : ℕ → Value N

-- What `<<` is given.
pub data Piece (N : Type 0) : Type 0 where
  literal : String → Piece N
  real : N → Piece N
  pointer index : ℕ → Piece N
  yellow white reset lua_state : Piece N
  tagged : ℕ → Piece N  -- the tag and the priority that `log_base` writes
  endl : Piece N

abbrev pub Written : Type 0 → Type 0
Written N = Option (List (Piece N))

-- Output that follows output; without a value where the fuel ran out.
infixr 5 ◌<+>◌
unfoldable pub ◌<+>◌ : {N : Type 0} → Written N → Written N → Written N
none <+> w = none
some ps <+> none = none
some ps <+> some qs = some (ps ++ qs)

abbrev pub is_table : {N : Type 0} → Value N → Bool
is_table (table id) = true
is_table v = false

-- `log_plain_noln` at a priority, under `m_filter_priority`.
unfoldable pub log_plain_noln : {N : Type 0} → ℕ → ℕ → List (Piece N) → Written N
log_plain_noln filter prio ps = some (if leb prio filter then ps else [])

-- `max_level < 0 || level < max_level`; a negative `max_level` is `none`.
abbrev pub deeper : ℕ → Option ℕ → Bool
deeper level none = true
deeper level (some max_level) = ltb level max_level

module _ {N : Type 0} (typename : Value N → String) (filter : ℕ) where
  -- `print_table` is the argument `tables`.
  pub print_type_simple : (ℕ → Written N) → Value N → ℕ → Bool → Bool → Written N
  print_type_simple tables (chars s) prio string_quotes show_table =
      (if string_quotes then log_plain_noln filter prio (literal "\"" ∷ []) else some [])
      <+> log_plain_noln filter prio (literal s ∷ [])
      <+> (if string_quotes then log_plain_noln filter prio (literal "\"" ∷ []) else some [])
  print_type_simple tables (number n) prio string_quotes show_table =
      log_plain_noln filter prio (real n ∷ [])
  print_type_simple tables (table id) prio string_quotes show_table =
      if show_table then tables id else log_plain_noln filter prio (literal "table..." ∷ [])
  print_type_simple tables v prio string_quotes show_table =
      log_plain_noln filter prio (literal (typename v) ∷ [])

  -- `if (lua_istable(L, -1) && (max_level < 0 || level < max_level)) … else …`
  abbrev pub print_item : (ℕ → Written N) → ℕ → Bool → Value N → Written N
  print_item tables prio deep (table id) =
      if deep then tables id else print_type_simple tables (table id) prio true false
  print_item tables prio deep v = print_type_simple tables v prio true false

  -- The loop; `first` as in the code.
  pub print_entries : (ℕ → Written N) → ℕ → Bool → Bool → List (Value N × Value N) → Written N
  unfolding print_type_simple
  print_entries tables prio deep first [] = some []
  print_entries tables prio deep first ((key, item) ∷ es) =
      (if first then some [] else log_plain_noln filter prio (literal ", " ∷ []))
      <+> log_plain_noln filter prio (white ∷ literal "{" ∷ reset ∷ [])
      <+> print_type_simple tables key prio true false
      <+> log_plain_noln filter prio (literal ", " ∷ [])
      <+> print_item tables prio deep item
      <+> log_plain_noln filter prio (white ∷ literal "}" ∷ reset ∷ [])
      <+> print_entries tables prio deep false es

module _ {N : Type 0} (typename : Value N → String) (entries : ℕ → List (Value N × Value N))
    (filter : ℕ) where
  pub print_table : ℕ → ℕ → ℕ → Option ℕ → ℕ → Written N
  unfolding print_entries
  print_table zero prio level max_level id = none
  print_table (suc fuel) prio level max_level id =
      log_plain_noln filter prio (yellow ∷ literal "{" ∷ reset ∷ [])
      <+> print_entries typename filter (print_table fuel prio (level + 1) max_level) prio
          (deeper level max_level) true (entries id)
      <+> log_plain_noln filter prio (yellow ∷ literal "}" ∷ reset ∷ [])

module _ {N : Type 0} (typename : Value N → String) (entries : ℕ → List (Value N × Value N))
    (filter : ℕ) (topointer : Value N → ℕ) where
  abbrev pub print_pointer : Value N → ℕ → Bool → Written N
  print_pointer v prio show_type_name =
      (if show_type_name
        then log_plain_noln filter prio (literal (typename v) ∷ literal ": " ∷ [])
        else some [])
      <+> log_plain_noln filter prio (pointer (topointer v) ∷ [])

  pub print_type : ℕ → Value N → ℕ → Bool → Bool → Option ℕ → Written N
  unfolding print_type_simple print_table
  print_type fuel (chars s) prio show_type_name show_table_content max_depth =
      print_type_simple typename filter (print_table typename entries filter fuel prio 0 none)
        (chars s) prio false false
  print_type fuel (number n) prio show_type_name show_table_content max_depth =
      print_type_simple typename filter (print_table typename entries filter fuel prio 0 none)
        (number n) prio false false
  print_type fuel (table id) prio show_type_name show_table_content max_depth =
      print_pointer (table id) prio show_type_name
      <+> (if show_table_content
          then log_plain_noln filter prio (literal ": " ∷ [])
            <+> print_table typename entries filter fuel prio 0 max_depth id
          else some [])
  print_type fuel v prio show_type_name show_table_content max_depth =
      print_pointer v prio show_type_name

  -- The arguments of `print` from number `i` on, with a tab after each but the last.
  abbrev pub print_arguments : ℕ → ℕ → List (Value N) → Written N
  print_arguments fuel prio [] = some []
  print_arguments fuel prio (v ∷ []) = print_type fuel v prio true true none
  print_arguments fuel prio (v ∷ u ∷ vs) =
      print_type fuel v prio true true none
      <+> log_plain_noln filter prio (literal "\t" ∷ [])
      <+> print_arguments fuel prio (u ∷ vs)

  -- `log_default_noln("")`, the arguments and `log_plain("")`
  abbrev pub print_line : ℕ → ℕ → List (Value N) → Written N
  print_line fuel prio vs =
      log_plain_noln filter prio (tagged prio ∷ literal "" ∷ [])
      <+> print_arguments fuel prio vs
      <+> log_plain_noln filter prio (literal "" ∷ endl ∷ [])

  -- `print` of Lua: `integer` is what `lua_isnumber` and `lua_tointeger` say of a value, without a
  -- value also for a negative number, which is no priority either.
  pub print : (Value N → Option ℕ) → ℕ → List (Value N) → Written N
  unfolding print_type
  print integer fuel [] = print_line fuel 6 []
  print integer fuel (v ∷ vs) = elim (integer v) [
    | none ↦ print_line fuel 6 (v ∷ vs)
    | some prio ↦ if leb prio 7 then print_line fuel prio vs else print_line fuel 6 (v ∷ vs)
  ]
