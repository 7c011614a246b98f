-- ===== src/Cookies.antt =====
-- `lua_engine::push_cookies` of src/core/lua_engine.cpp: the value of a Cookie header is split
-- at ';', and each part `name=value` is set in a Lua table.
-- The header is the list of its bytes. Its buffer ends in the NUL byte that std::string keeps
-- behind the text; a read beyond that byte is a fault. Boost's `iter_split` is the parameter
-- `split`, which gives each part as its offset and length. The Lua table is the list of the pairs
-- that `lua_rawset` is called with, in order.
pub mod Parts
pub mod Header
mod Tests
use petrel.Prelude.{
  ℕ, zero, suc, ◌+◌, ◌-◌, Bool, true, false, List, [], ◌∷◌, ◌++◌, Option, none, some, ◌==◌, ltb,
  leb, take, drop, length, if◌then◌else◌, ◌||◌, ◌&&◌,
}

pub data Error : Type 0 where
  out_of_bounds : Error

pub data Result (A : Type 0) : Type 0 where
  ok : A → Result A
  err : Error → Result A

infixl 5 ◌>>=◌
abbrev pub ◌>>=◌ : {A B : Type 0} → Result A → (A → Result B) → Result B
ok a >>= f = f a
err e >>= f = err e

-- `std::find`: the index of the first `c`, or the length.
pub index_of : ℕ → List ℕ → ℕ
index_of c [] = 0
index_of c (b ∷ bs) = if b == c then 0 else suc (index_of c bs)

-- `while (*name == ' ' && name < eq) ++name;` over the bytes from `name` on, with `eq - name` as
-- the last argument: how far the pointer moves.
pub skip_spaces : List ℕ → ℕ → ℕ
skip_spaces [] left = 0
skip_spaces (b ∷ bs) zero = 0
skip_spaces (b ∷ bs) (suc left) = if b == b' ' then suc (skip_spaces bs left) else 0

-- The copy of `len` bytes from `start` that `lua_pushlstring` makes.
pub read : List ℕ → ℕ → ℕ → Result (List ℕ)
read mem start len =
    if leb (start + len) (length mem) then ok (take len (drop start mem)) else err out_of_bounds

-- The body of the loop, for the part of `len` bytes at `start`: the pair that is set, if any.
pub push_part : List ℕ → ℕ → ℕ → Result (Option (List ℕ × List ℕ))
push_part mem start len =
    let part = take len (drop start mem) in
    let it = index_of b'=' part in
    let name = start + skip_spaces part it in
    let name_len = start + it - name in
    let val_len = len - name_len - 1 in
    if it == len || it == 0
    then ok none
    else if ltb 0 name_len
    then (do n ← read mem name name_len; v ← read mem (start + it + 1) val_len; ok (some (n, v)))
    else ok none

abbrev add_pair : Option (List ℕ × List ℕ) → List (List ℕ × List ℕ) → List (List ℕ × List ℕ)
add_pair none table = table
add_pair (some p) table = p ∷ table

-- The loop over the parts.
pub push_parts : List ℕ → List (ℕ × ℕ) → Result (List (List ℕ × List ℕ))
push_parts mem [] = ok []
push_parts mem ((start, len) ∷ parts) = do
  p ← push_part mem start len
  table ← push_parts mem parts
  ok (add_pair p table)

pub push_cookies : (List ℕ → List (ℕ × ℕ)) → List ℕ → Result (List (List ℕ × List ℕ))
push_cookies split cookies = push_parts (cookies ++ 0 ∷ []) (split cookies)
