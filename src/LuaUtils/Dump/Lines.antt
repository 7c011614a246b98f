-- ===== src/LuaUtils/Dump/Lines.antt =====
-- What `dump_stack` writes, described without an index into the stack or a loop.
use Prim.Native.String.{String}
use mathlib.Core.List.{append_assoc, append-nil}
use petrel.Prelude.{
  ℕ, zero, suc, ◌+◌, ◌-◌, ◌<◌, ◌≤◌, ◌≡◌, refl, sym, ap, ◌∙◌, Bool, true, false, ◌&&◌, List, [], ◌∷◌,
  ◌++◌, some, ◌==◌, length, length-take, take-top, get_elem?, take, element, take_all,
  if◌then◌else◌, arith,
}
use petrel.LuaUtils.{
  Value, nil, boolean, number, chars, table, c_function, lua_function, light_userdata, userdata,
  thread, Piece, literal, real, pointer, index, lua_state, tagged, endl, white, reset, Written,
  ◌<+>◌, log_plain_noln, print_type_simple, print_table, print_type,
}
use petrel.LuaUtils.Reference.{
  shown, print_table-shown, nothing-join, log_plain_noln-nothing, join-nothing, join_assoc,
  join-log_plain_noln,
}
use petrel.LuaUtils.Dump.{is_nil, remove_at, dump_value, dump_loop, dump_stack}

module _ {N : Type 0} (typename : Value N → String) (entries : ℕ → List (Value N × Value N))
    (filter : ℕ) (topointer : Value N → ℕ) where
  -- A line of the dump, and the lines of a stack whose lowest index is `i`, without an index into the
  -- stack.
  abbrev pub content : Value N → List (Piece N)
  content (chars s) = literal s ∷ []
  content (number n) = real n ∷ []
  content (table id) = pointer (topointer (table id)) ∷ literal ": " ∷ shown typename entries 2 id
  content v = pointer (topointer v) ∷ []

  abbrev pub line : ℕ → Value N → List (Piece N)
  line i v =
      tagged 7
      ∷ literal "  "
      ∷ white
      ∷ index i
      ∷ literal ": "
      ∷ reset
      ∷ literal (typename v)
      ∷ literal ": "
      ∷ (content v ++ literal "" ∷ endl ∷ [])

  abbrev pub lines : ℕ → List (Value N) → List (Piece N)
  lines i [] = []
  lines i (v ∷ vs) = lines (i + 1) vs ++ line i v

  abbrev pub dump : List (Value N) → List (Piece N)
  dump stack =
      tagged 7
      ∷ literal "STACK START "
      ∷ lua_state
      ∷ endl
      ∷ (lines 1 stack ++ tagged 7 ∷ literal "STACK END " ∷ lua_state ∷ endl ∷ [])

  abbrev pub log_debug : List (Piece N) → Written N
  log_debug ps = log_plain_noln filter 7 ps

  join : (ps qs : List (Piece N)) → log_debug ps <+> log_debug qs ≡ log_debug (ps ++ qs)
  join ps qs = join-log_plain_noln typename filter 7 ps qs

  log_table :
      (fuel id : ℕ)
      → 1 < fuel
      → print_table typename entries filter fuel 7 0 (some 1) id
        ≡ log_debug (shown typename entries 2 id)
  unfolding log_plain_noln
  log_table fuel id h = print_table-shown typename entries filter fuel 7 0 1 id h

  print_type-content :
      (fuel : ℕ) (v : Value N)
      → 1 < fuel
      → print_type typename entries filter topointer fuel v 7 false true (some 1)
        ≡ log_debug (content v)
  unfolding print_type print_type_simple
  print_type-content fuel (table id) h =
      let table_written : print_table typename entries filter fuel 7 0 (some 1) id
          ≡ log_debug (shown typename entries 2 id) =
        log_table fuel id h in
      simp (nothing-join, table_written, join)
  print_type-content fuel nil h = nothing-join _
  print_type-content fuel (chars s) h = simp (nothing-join, join-nothing)
  print_type-content fuel (number n) h = refl
  print_type-content fuel (boolean b) h = nothing-join _
  print_type-content fuel (c_function a) h = nothing-join _
  print_type-content fuel (lua_function a) h = nothing-join _
  print_type-content fuel (light_userdata a) h = nothing-join _
  print_type-content fuel (userdata a) h = nothing-join _
  print_type-content fuel (thread a) h = nothing-join _

  dump_value-line :
      (fuel i : ℕ) (v : Value N)
      → 1 < fuel
      → dump_value typename entries filter topointer fuel i (some v) ≡ log_debug (line i v)
  dump_value-line fuel i v h = simp (print_type-content fuel v h, join)

  lines-take :
      (k i : ℕ) (stack : List (Value N)) (v : Value N)
      → get_elem? stack i ≡ some v
      → lines k (take (suc i) stack) ≡ line (k + i) v ++ lines k (take i stack)
  lines-take k i [] v h = ground (arith, h)
  lines-take k zero (u ∷ stack) v h =
      let e : u ≡ v = ground (arith, h) in
      let k_zero : k + 0 ≡ k = omega arith in rw (e, k_zero, append-nil (line k v))
  lines-take k (suc i) (u ∷ stack) v h =
      let k_suc : k + 1 + i ≡ k + suc i = omega arith in
      ap (λ ps. ps ++ line k u) (lines-take (k + 1) i stack v h)
      ∙ append_assoc (line (k + 1 + i) v) (lines (k + 1) (take i stack)) (line k u)
      ∙ ap (λ n. line n v ++ (lines (k + 1) (take i stack) ++ line k u)) k_suc

  -- The loop below the top leaves the stack as it is and writes its lines.
  dump_loop-lines :
      (fuel s : ℕ) (nil_at_top : Bool) (i : ℕ) (stack : List (Value N)) (w : Written N)
      → 1 < fuel
      → i < s
      → i ≤ length stack
      → dump_loop typename entries filter topointer fuel s nil_at_top i (stack, w)
        ≡ (stack, w <+> log_debug (lines 1 (take i stack)))
  unfolding dump_loop
  dump_loop-lines fuel s nil_at_top zero stack w h l b =
      ap (λ u. (stack, u))
        (sym (join-nothing w) ∙ ap (λ u. w <+> u) (sym (log_plain_noln-nothing typename filter 7)))
  dump_loop-lines fuel s nil_at_top (suc i) stack w h l b =
      let (v, at) = element stack i (omega arith) in
      let kept : (if (suc i == s) && nil_at_top then remove_at i stack else stack) ≡ stack =
        ground arith in
      let one = dump_value-line fuel (suc i) v h in
      let next : 1 + i ≡ suc i = omega arith in
      rw (
        kept,
        at,
        one,
        dump_loop-lines fuel s nil_at_top i stack (w <+> log_debug (line (suc i) v)) h (omega arith)
            (omega arith),
        lines-take 1 i stack v at,
        join_assoc w (log_debug (line (suc i) v)) (log_debug (lines 1 (take i stack))),
        join (line (suc i) v) (lines 1 (take i stack)),
        next,
      )

  remove_at-take :
      (n : ℕ) (stack : List (Value N)) → length stack ≡ suc n → remove_at n stack ≡ take n stack
  remove_at-take n [] e = absurd (omega arith)
  remove_at-take zero (v ∷ []) e = refl
  remove_at-take zero (v ∷ u ∷ stack) e = absurd (omega arith)
  remove_at-take (suc n) (v ∷ stack) e = ap (λ vs. v ∷ vs) (remove_at-take n stack (omega arith))

  lines-top :
      (n : ℕ) (stack : List (Value N)) (v : Value N)
      → length stack ≡ suc n
      → get_elem? stack n ≡ some v
      → line (suc n) v ++ lines 1 (take n stack) ≡ lines 1 stack
  lines-top n stack v e at =
      let whole : take (suc n) stack ≡ stack = take_all (suc n) stack (omega arith) in
      let next : 1 + n ≡ suc n = omega arith in
      ap (λ m. line m v ++ lines 1 (take n stack)) (sym next)
      ∙ sym (lines-take 1 n stack v at)
      ∙ ap (λ vs. lines 1 vs) whole

  -- The whole loop: a nil at the top is taken away.
  dump_loop-top :
      (fuel n : ℕ) (nil_at_top : Bool) (stack : List (Value N)) (v : Value N) (w : Written N)
      → 1 < fuel
      → length stack ≡ suc n
      → get_elem? stack n ≡ some v
      → dump_loop typename entries filter topointer fuel (suc n) nil_at_top (suc n) (stack, w)
        ≡ (if nil_at_top then take n stack else stack, w <+> log_debug (lines 1 stack))
  unfolding dump_loop
  dump_loop-top fuel n nil_at_top stack v w h e at =
      let removed : (if (suc n == suc n) && nil_at_top then remove_at n stack else stack)
          ≡ (if nil_at_top then take n stack else stack) =
        ground (arith, remove_at-take n stack e) in
      let same : take n (if nil_at_top then take n stack else stack) ≡ take n stack =
        ground (arith, take_all n (take n stack) (omega (arith, length-take n stack))) in
      let long : n ≤ length (if nil_at_top then take n stack else stack) =
        ground (arith, length-take n stack) in
      rw (
        removed,
        at,
        dump_value-line fuel (suc n) v h,
        dump_loop-lines fuel (suc n) nil_at_top n (if nil_at_top then take n stack else stack)
            (w <+> log_debug (line (suc n) v)) h (omega arith) long,
        same,
        join_assoc w (log_debug (line (suc n) v)) (log_debug (lines 1 (take n stack))),
        join (line (suc n) v) (lines 1 (take n stack)),
        lines-top n stack v e at,
      )

  put_back :
      (n : ℕ) (stack : List (Value N)) (v : Value N)
      → length stack ≡ suc n
      → get_elem? stack n ≡ some v
      → (if is_nil (some v)
          then (if is_nil (some v) then take n stack else stack) ++ nil ∷ []
          else if is_nil (some v)
          then take n stack
          else stack)
        ≡ stack
  put_back n stack nil e at = take-top n stack nil e at
  put_back n stack (table id) e at = refl
  put_back n stack (chars s) e at = refl
  put_back n stack (number m) e at = refl
  put_back n stack (boolean b) e at = refl
  put_back n stack (c_function a) e at = refl
  put_back n stack (lua_function a) e at = refl
  put_back n stack (light_userdata a) e at = refl
  put_back n stack (userdata a) e at = refl
  put_back n stack (thread a) e at = refl

  dump_stack-top :
      (fuel n : ℕ) (at_zero : Bool) (stack : List (Value N)) (v : Value N)
      → 1 < fuel
      → length stack ≡ suc n
      → get_elem? stack n ≡ some v
      → dump_stack typename entries filter topointer fuel at_zero stack
        ≡ (stack, log_debug (dump stack))
  unfolding dump_stack
  dump_stack-top fuel n at_zero stack v h e at =
      let below : length stack - 1 ≡ n = omega arith in
      let at_top : is_nil (get_elem? stack (length stack - 1)) ≡ is_nil (some v) = rw (below, at) in
      let top_nil : (if length stack == 0
            then at_zero
            else is_nil (get_elem? stack (length stack - 1)))
          ≡ is_nil (some v) =
        ground (arith, at_top) in
      rw (
        top_nil,
        e,
        dump_loop-top fuel n (is_nil (some v)) stack v
            (log_debug (tagged 7 ∷ literal "STACK START " ∷ lua_state ∷ endl ∷ [])) h e at,
        put_back n stack v e at,
        join (tagged 7 ∷ literal "STACK START " ∷ lua_state ∷ endl ∷ []) (lines 1 stack),
        join (tagged 7 ∷ literal "STACK START " ∷ lua_state ∷ endl ∷ lines 1 stack)
            (tagged 7 ∷ literal "STACK END " ∷ lua_state ∷ endl ∷ []),
      )

  -- The stack after the dump: an empty one gets a nil if Lua takes index 0 for a nil.
  abbrev pub left_over : Bool → List (Value N) → List (Value N)
  left_over true [] = nil ∷ []
  left_over false [] = []
  left_over at_zero (v ∷ stack) = v ∷ stack

  -- `dump_stack` returns for each stack as soon as two nested tables can be entered, and writes a line
  -- for each value from the top down. It leaves a stack that is not empty as it was, with a nil at its
  -- top put back; an empty stack gets a nil if `lua_type` takes its index 0 for a nil.
  pub dump_stack-dump :
      (fuel : ℕ) (at_zero : Bool) (stack : List (Value N))
      → 1 < fuel
      → dump_stack typename entries filter topointer fuel at_zero stack
        ≡ (left_over at_zero stack, log_debug (dump stack))
  unfolding dump_stack dump_loop
  dump_stack-dump fuel true [] h =
      ap (λ w. (nil ∷ [], w))
        (join (tagged 7 ∷ literal "STACK START " ∷ lua_state ∷ endl ∷ [])
          (tagged 7 ∷ literal "STACK END " ∷ lua_state ∷ endl ∷ []))
  dump_stack-dump fuel false [] h =
      ap (λ w. ([], w))
        (join (tagged 7 ∷ literal "STACK START " ∷ lua_state ∷ endl ∷ [])
          (tagged 7 ∷ literal "STACK END " ∷ lua_state ∷ endl ∷ []))
  dump_stack-dump fuel at_zero (u ∷ stack) h =
      let (v, at) = element (u ∷ stack) (length stack) (omega arith) in
      dump_stack-top fuel (length stack) at_zero (u ∷ stack) v h refl at
