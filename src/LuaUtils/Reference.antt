-- ===== src/LuaUtils/Reference.antt =====
-- What `print_table` writes with a limit on the depth, described without fuel, levels or a flag for
-- the first entry.
use mathlib.Core.List.{append_assoc, append-nil}
use Prim.Native.String.{String}
use petrel.Prelude.{
  ℕ, zero, suc, ◌+◌, ◌-◌, ◌<◌, ◌≤◌, ◌≡◌, refl, sym, ap, Bool, true, false, List, [], ◌∷◌, ◌++◌,
  none, some, ltb, leb, if◌then◌else◌, arith,
}
use petrel.LuaUtils.{
  Value, nil, boolean, number, chars, table, c_function, lua_function, light_userdata, userdata,
  thread, Piece, literal, real, yellow, white, reset, Written, ◌<+>◌, log_plain_noln,
  print_type_simple, print_item, print_entries, print_table,
}

module _ {N : Type 0} (typename : Value N → String) where
  -- A key, or a value that is no table.
  abbrev pub shown_simple : Value N → List (Piece N)
  shown_simple (chars s) = literal "\"" ∷ literal s ∷ literal "\"" ∷ []
  shown_simple (number n) = real n ∷ []
  shown_simple (table id) = literal "table..." ∷ []
  shown_simple v = literal (typename v) ∷ []

  abbrev pub shown_item : (ℕ → List (Piece N)) → Value N → List (Piece N)
  shown_item tables (table id) = tables id
  shown_item tables v = shown_simple v

  abbrev pub shown_entry : (ℕ → List (Piece N)) → Value N × Value N → List (Piece N)
  shown_entry tables (key, item) =
      white
      ∷ literal "{"
      ∷ reset
      ∷ (shown_simple key
          ++ literal ", " ∷ (shown_item tables item ++ white ∷ literal "}" ∷ reset ∷ []))

  -- The entries that follow another one, and all entries, with `, ` between them.
  abbrev pub shown_rest : (ℕ → List (Piece N)) → List (Value N × Value N) → List (Piece N)
  shown_rest tables [] = []
  shown_rest tables (e ∷ es) = literal ", " ∷ (shown_entry tables e ++ shown_rest tables es)

  abbrev pub shown_entries : (ℕ → List (Piece N)) → List (Value N × Value N) → List (Piece N)
  shown_entries tables [] = []
  shown_entries tables (e ∷ es) = shown_entry tables e ++ shown_rest tables es

  -- A table of which `depth` levels are shown.
  unfoldable pub shown : (ℕ → List (Value N × Value N)) → ℕ → ℕ → List (Piece N)
  shown entries zero id = literal "table..." ∷ []
  shown entries (suc depth) id =
      yellow
      ∷ literal "{"
      ∷ reset
      ∷ (shown_entries (shown entries depth) (entries id) ++ yellow ∷ literal "}" ∷ reset ∷ [])

module _ {N : Type 0} where
  pub nothing-join : (w : Written N) → some [] <+> w ≡ w
  unfolding ◌<+>◌
  nothing-join none = refl
  nothing-join (some ps) = refl

  pub join-nothing : (w : Written N) → w <+> some [] ≡ w
  unfolding ◌<+>◌
  join-nothing none = refl
  join-nothing (some ps) = ap some (append-nil ps)

  pub join_assoc : (u v w : Written N) → (u <+> v) <+> w ≡ u <+> (v <+> w)
  unfolding ◌<+>◌
  join_assoc none v w = refl
  join_assoc (some ps) none w = refl
  join_assoc (some ps) (some qs) none = refl
  join_assoc (some ps) (some qs) (some rs) = ap some (append_assoc ps qs rs)

module _ {N : Type 0} (typename : Value N → String) (filter : ℕ) where
  pub log_plain_noln-nothing : (prio : ℕ) → log_plain_noln {N = N} filter prio [] ≡ some []
  unfolding log_plain_noln
  log_plain_noln-nothing prio = ground arith

  pub join-log_plain_noln :
      (prio : ℕ) (ps qs : List (Piece N))
      → log_plain_noln filter prio ps <+> log_plain_noln filter prio qs
        ≡ log_plain_noln filter prio (ps ++ qs)
  unfolding ◌<+>◌ log_plain_noln
  join-log_plain_noln prio ps qs = ground arith

  pub print_type_simple-shown :
      (tables : ℕ → Written N) (v : Value N) (prio : ℕ)
      → print_type_simple typename filter tables v prio true false
        ≡ log_plain_noln filter prio (shown_simple typename v)
  unfolding print_type_simple
  print_type_simple-shown tables (chars s) prio = simp join-log_plain_noln
  print_type_simple-shown tables nil prio = refl
  print_type_simple-shown tables (boolean b) prio = refl
  print_type_simple-shown tables (number n) prio = refl
  print_type_simple-shown tables (table id) prio = refl
  print_type_simple-shown tables (c_function a) prio = refl
  print_type_simple-shown tables (lua_function a) prio = refl
  print_type_simple-shown tables (light_userdata a) prio = refl
  print_type_simple-shown tables (userdata a) prio = refl
  print_type_simple-shown tables (thread a) prio = refl

  print_item-shown :
      (tables : ℕ → Written N) (shown_table : ℕ → List (Piece N)) (prio : ℕ) (deep : Bool)
      → ((id : ℕ)
          → print_item typename filter tables prio deep (table id)
            ≡ log_plain_noln filter prio (shown_table id))
      → (v : Value N)
      → print_item typename filter tables prio deep v
        ≡ log_plain_noln filter prio (shown_item typename shown_table v)
  print_item-shown tables shown_table prio deep h (table id) = h id
  print_item-shown tables shown_table prio deep h nil = print_type_simple-shown tables nil prio
  print_item-shown tables shown_table prio deep h (boolean b) =
      print_type_simple-shown tables (boolean b) prio
  print_item-shown tables shown_table prio deep h (number n) =
      print_type_simple-shown tables (number n) prio
  print_item-shown tables shown_table prio deep h (chars s) =
      print_type_simple-shown tables (chars s) prio
  print_item-shown tables shown_table prio deep h (c_function a) =
      print_type_simple-shown tables (c_function a) prio
  print_item-shown tables shown_table prio deep h (lua_function a) =
      print_type_simple-shown tables (lua_function a) prio
  print_item-shown tables shown_table prio deep h (light_userdata a) =
      print_type_simple-shown tables (light_userdata a) prio
  print_item-shown tables shown_table prio deep h (userdata a) =
      print_type_simple-shown tables (userdata a) prio
  print_item-shown tables shown_table prio deep h (thread a) =
      print_type_simple-shown tables (thread a) prio

  print_rest-shown :
      (tables : ℕ → Written N) (shown_table : ℕ → List (Piece N)) (prio : ℕ) (deep : Bool)
      → ((id : ℕ)
          → print_item typename filter tables prio deep (table id)
            ≡ log_plain_noln filter prio (shown_table id))
      → (es : List (Value N × Value N))
      → print_entries typename filter tables prio deep false es
        ≡ log_plain_noln filter prio (shown_rest typename shown_table es)
  unfolding print_entries
  print_rest-shown tables shown_table prio deep h [] = sym (log_plain_noln-nothing prio)
  print_rest-shown tables shown_table prio deep h ((key, v) ∷ es) = simp (
    print_type_simple-shown tables key prio,
    print_item-shown tables shown_table prio deep h v,
    print_rest-shown tables shown_table prio deep h es,
    join-log_plain_noln,
    append_assoc,
  )

  print_entries-shown :
      (tables : ℕ → Written N) (shown_table : ℕ → List (Piece N)) (prio : ℕ) (deep : Bool)
      → ((id : ℕ)
          → print_item typename filter tables prio deep (table id)
            ≡ log_plain_noln filter prio (shown_table id))
      → (es : List (Value N × Value N))
      → print_entries typename filter tables prio deep true es
        ≡ log_plain_noln filter prio (shown_entries typename shown_table es)
  unfolding print_entries
  print_entries-shown tables shown_table prio deep h [] = sym (log_plain_noln-nothing prio)
  print_entries-shown tables shown_table prio deep h ((key, v) ∷ es) = simp (
    nothing-join,
    print_type_simple-shown tables key prio,
    print_item-shown tables shown_table prio deep h v,
    print_rest-shown tables shown_table prio deep h es,
    join-log_plain_noln,
    append_assoc,
  )

module _ {N : Type 0} (typename : Value N → String) (entries : ℕ → List (Value N × Value N))
    (filter : ℕ) where
  -- A nested table, given what `print_table` writes for it one level deeper.
  nested-shown :
      (tables : ℕ → Written N) (prio level max_level : ℕ)
      → ((id : ℕ)
          → level < max_level
          → tables id
            ≡ log_plain_noln filter prio
                (shown typename entries (suc (max_level - (level + 1))) id))
      → (id : ℕ)
      → print_item typename filter tables prio (ltb level max_level) (table id)
        ≡ log_plain_noln filter prio (shown typename entries (max_level - level) id)
  unfolding shown
  nested-shown tables prio level max_level h id =
      let deep : level < max_level
          → shown typename entries (max_level - level) id
            ≡ shown typename entries (suc (max_level - (level + 1))) id =
        λ l.
          let e : max_level - level ≡ suc (max_level - (level + 1)) = omega arith in
          ap (λ depth. shown typename entries depth id) e in
      let limit : max_level ≤ level
          → shown typename entries (max_level - level) id ≡ literal "table..." ∷ [] =
        λ l.
          let e : max_level - level ≡ 0 = omega arith in
          ap (λ depth. shown typename entries depth id) e in
      ground
        (arith, h id, deep, limit, print_type_simple-shown typename filter tables (table id) prio)

  -- With a limit `print_table` returns for each table, also for one that contains itself, as soon as
  -- the fuel exceeds the levels that are left, and it writes what the reference shows of as many
  -- levels, or nothing if the priority is filtered.
  pub print_table-shown :
      (fuel prio level max_level id : ℕ)
      → max_level - level < fuel
      → print_table typename entries filter fuel prio level (some max_level) id
        ≡ some (if leb prio filter then shown typename entries (suc (max_level - level)) id else [])
  unfolding print_table shown log_plain_noln
  print_table-shown zero prio level max_level id h = absurd (omega arith)
  print_table-shown (suc fuel) prio level max_level id h =
      let inner : (id' : ℕ)
          → level < max_level
          → print_table typename entries filter fuel prio (level + 1) (some max_level) id'
            ≡ log_plain_noln filter prio
                (shown typename entries (suc (max_level - (level + 1))) id') =
        λ id' l. print_table-shown fuel prio (level + 1) max_level id' (omega arith) in
      let loop =
        print_entries-shown typename filter
          (print_table typename entries filter fuel prio (level + 1) (some max_level))
          (shown typename entries (max_level - level)) prio (ltb level max_level)
          (nested-shown (print_table typename entries filter fuel prio (level + 1) (some max_level))
            prio level max_level inner)
          (entries id) in
      simp (loop, join-log_plain_noln typename filter)
