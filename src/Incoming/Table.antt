-- ===== src/Incoming/Table.antt =====
-- What the table for a request has.
use text.Mathlib.Text.{◌==◌ as str_eq}
use Prim.Native.String.{String}
use petrel.Prelude.{
  ℕ, suc, ◌+◌, ◌≡◌, refl, ap, ◌∙◌, Bool, true, false, List, [], ◌∷◌, Option, none, some, length,
  get_elem?, if◌then◌else◌, or_else, arith, Option-cases,
}
use petrel.Maps.{lookup, assign, lookup-assign}
use petrel.Incoming.{
  Container, Incoming, http, http2, Iterator, http_iter, http2_iter, for_each, headers_begin,
  headers_end, headers_size, header_exists, header, cookie_fields, fields, push_request,
}

abbrev pub set_fields : List (String × String) → List (String × String) → List (String × String)
set_fields [] table = table
set_fields ((name, val) ∷ es) table = set_fields es (assign name val table)

-- The value of the last entry with the name.
abbrev pub last_value : String → List (String × String) → Option String
last_value n [] = none
last_value n ((name, val) ∷ es) =
    or_else (last_value n es) (if str_eq name n then some val else none)

pub set_fields-lookup :
    (n : String) (es table : List (String × String))
    → lookup n (set_fields es table) ≡ or_else (last_value n es) (lookup n table)
set_fields-lookup n [] table = refl
set_fields-lookup n ((name, val) ∷ es) table = ground (
  arith,
  set_fields-lookup n es (assign name val table),
  lookup-assign name n val table,
  Option-cases (last_value n es),
)

-- The two kinds of iterator at a position.
abbrev pub iterator : Bool → List (String × String) → ℕ → Iterator
iterator true es i = http_iter es i
iterator false es i = http2_iter es i

for_each-rest :
    (b : Bool) (es rest table : List (String × String)) (i : ℕ)
    → i + length rest ≡ length es
    → ((k : ℕ) → get_elem? es (i + k) ≡ get_elem? rest k)
    → for_each (suc (length rest)) (iterator b es i) (iterator b es (length es)) table
      ≡ some (set_fields rest table)
unfolding for_each
for_each-rest true es [] table i e at = ground arith
for_each-rest false es [] table i e at = ground arith
for_each-rest true es ((name, val) ∷ rest) table i e at = ground (
  arith,
  at 0,
  for_each-rest true es rest (assign name val table) (i + 1) (omega arith)
      (λ k. ap (get_elem? es) (omega arith) ∙ at (suc k)),
)
for_each-rest false es ((name, val) ∷ rest) table i e at = ground (
  arith,
  at 0,
  for_each-rest false es rest (assign name val table) (i + 1) (omega arith)
      (λ k. ap (get_elem? es) (omega arith) ∙ at (suc k)),
)

module _ (C D : Container) where
  abbrev pub entries_of : Incoming C D → List (String × String)
  entries_of (http r) = C.entries r.headers
  entries_of (http2 r) = D.entries r.headers

  for_each-entries :
      (req : Incoming C D)
      → for_each (suc (headers_size C D req)) (headers_begin C D req) (headers_end C D req) []
        ≡ some (set_fields (entries_of req) [])
  unfolding headers_size headers_begin headers_end
  for_each-entries (http r) =
      for_each-rest true (C.entries r.headers) (C.entries r.headers) [] 0 (omega arith)
        (λ k. ap (get_elem? (C.entries r.headers)) (omega arith))
  for_each-entries (http2 r) =
      for_each-rest false (D.entries r.headers) (D.entries r.headers) [] 0 (omega arith)
        (λ k. ap (get_elem? (D.entries r.headers)) (omega arith))

  -- In both modes the walk over the headers ends after as many rounds as there are headers, without
  -- comparing iterators of different modes or reading behind the last header, and the table of
  -- headers that the Lua function gets has under each name the value of the last header with it;
  -- only the cookies can make `push_request` fail.
  pub push_request-headers :
      (bytes_of : String → List ℕ) (split : List ℕ → List (ℕ × ℕ)) (time : ℕ) (address : ℕ → String)
      (version : ℕ → ℕ) (req : Incoming C D)
      → (hs : List (String × String)) × (push_request C D bytes_of split time address version req
          ≡ fields C D bytes_of split time address version req (some hs) (
              cookie_fields C D bytes_of split
                (header_exists C D "cookie" req)
                (header C D "cookie" req)))
        × ((n : String) → lookup n hs ≡ last_value n (entries_of req))
  unfolding push_request
  push_request-headers bytes_of split time address version req = (
    set_fields (entries_of req) [],
    rw (for_each-entries req) refl,
    λ n.
        set_fields-lookup n (entries_of req) []
        ∙ unfold lookup in ground (arith, Option-cases (last_value n (entries_of req))),
  )
