-- ===== src/Incoming.antt =====
-- The request that a handler gets: the accessors and the header iterator of src/core/request.h and
-- request.cpp, and the Lua table that `lua_engine::push_request` of src/core/lua_engine.cpp makes of it.
-- The containers of Boost.Http and nghttp2 are the interface `Container`, which gives the entries in
-- the order of iteration.
pub mod Table
mod Tests
use text.Mathlib.Text.{◌==◌ as str_eq}
use Prim.Native.String.{String}
use Prim.Native.String.{◌++◌ as join}
use petrel.Prelude.{
  ℕ, zero, suc, ◌+◌, ◌≡◌, Bool, true, false, List, [], ◌∷◌, ◌++◌, Option, none, some, ◌==◌, not,
  length, get_elem?, if◌then◌else◌,
}
use petrel.Maps.{assign}
use petrel.Cookies.{push_cookies, Result, ok, err}
use petrel.Server.{Method, get, post, other}

pub record Container : Type 1 where
  pub Headers : Type 0
  pub entries : Headers → List (String × String)
  pub find : String → Headers → Option String

-- What a session read (`session::request`).
pub record HttpRequest (H : Type 0) : Type 0 where
  pub method : String
  pub path : String
  pub proto : String
  pub headers : H
  pub body : List ℕ
  pub remote_endpoint : ℕ

-- What nghttp2 hands over, with the content that was received for a POST request.
pub record Http2Request (H : Type 0) : Type 0 where
  pub method : String
  pub scheme : String
  pub host : String
  pub raw_path : String
  pub raw_query : String
  pub headers : H
  pub content : Option (List ℕ)
  pub remote_endpoint : ℕ

-- `init`
abbrev pub method_of : String → Method
method_of name = if str_eq name "GET" then get else (if str_eq name "POST" then post else other)

-- The path that the HTTP/2 constructor sets.
abbrev pub full_path : String → String → String
full_path raw_path raw_query =
    if str_eq raw_query "" then raw_path else join (join raw_path "?") raw_query

-- Values of the Lua table.
pub data Value : Type 0 where
  integer : ℕ → Value
  chars : String → Value
  bytes : List ℕ → Value
  headers_table : List (String × String) → Value
  cookies_table : List (List ℕ × List ℕ) → Value

module _ (C D : Container) where
  -- `mode::HTTP` and `mode::HTTP2`
  pub data Incoming : Type 0 where
    http : HttpRequest C.Headers → Incoming
    http2 : Http2Request D.Headers → Incoming

  unfoldable pub method_string : Incoming → String
  method_string (http r) = r.method
  method_string (http2 r) = r.method

  unfoldable pub method : Incoming → Method
  method r = method_of (method_string r)

  unfoldable pub proto : Incoming → String
  proto (http r) = r.proto
  proto (http2 r) = r.scheme

  abbrev pub or_empty : Option String → String
  or_empty none = ""
  or_empty (some val) = val

  unfoldable pub header : String → Incoming → String
  header name (http r) = or_empty (C.find name r.headers)
  header name (http2 r) = or_empty (D.find name r.headers)

  abbrev pub is_some : Option String → Bool
  is_some none = false
  is_some (some val) = true

  unfoldable pub header_exists : String → Incoming → Bool
  header_exists name (http r) = is_some (C.find name r.headers)
  header_exists name (http2 r) = is_some (D.find name r.headers)

  unfoldable pub host : Incoming → String
  host (http r) = header "host" (http r)
  host (http2 r) = r.host

  unfoldable pub path : Incoming → String
  path (http r) = r.path
  path (http2 r) = full_path r.raw_path r.raw_query

  unfoldable pub content : Incoming → List ℕ
  content (http r) = r.body
  content (http2 r) = elim r.content [ none ↦ [] | some c ↦ c ]

  unfoldable pub remote_endpoint : Incoming → ℕ
  remote_endpoint (http r) = r.remote_endpoint
  remote_endpoint (http2 r) = r.remote_endpoint

  unfoldable pub headers_size : Incoming → ℕ
  headers_size (http r) = length (C.entries r.headers)
  headers_size (http2 r) = length (D.entries r.headers)

-- `header_iterator`: the mode that it was made in, the entries that it runs over, and how many it
-- has passed.
pub data Iterator : Type 0 where
  http_iter : List (String × String) → ℕ → Iterator
  http2_iter : List (String × String) → ℕ → Iterator

abbrev pub next : Iterator → Iterator
next (http_iter es i) = http_iter es (i + 1)
next (http2_iter es i) = http2_iter es (i + 1)

-- `first` and `second` of an iterator; `none` behind the last entry.
abbrev pub current : Iterator → Option (String × String)
current (http_iter es i) = get_elem? es i
current (http2_iter es i) = get_elem? es i

-- `operator==`; it throws (`none`) if the modes differ.
abbrev pub equals : Iterator → Iterator → Option Bool
equals (http_iter es i) (http_iter fs j) = some (i == j)
equals (http2_iter es i) (http2_iter fs j) = some (i == j)
equals (http_iter es i) (http2_iter fs j) = none
equals (http2_iter es i) (http_iter fs j) = none

-- `operator!=`; it throws (`none`) if the modes differ.
abbrev pub differs : Iterator → Iterator → Option Bool
differs (http_iter es i) (http_iter fs j) = some (not (i == j))
differs (http2_iter es i) (http2_iter fs j) = some (not (i == j))
differs (http_iter es i) (http2_iter fs j) = none
differs (http2_iter es i) (http_iter fs j) = none

module _ (C D : Container) where
  unfoldable pub headers_begin : Incoming C D → Iterator
  headers_begin (http r) = http_iter (C.entries r.headers) 0
  headers_begin (http2 r) = http2_iter (D.entries r.headers) 0

  unfoldable pub headers_end : Incoming C D → Iterator
  headers_end (http r) = http_iter (C.entries r.headers) (length (C.entries r.headers))
  headers_end (http2 r) = http2_iter (D.entries r.headers) (length (D.entries r.headers))

-- `lua_setfield` for the entry of an iterator.
abbrev pub set_field :
    Option (String × String) → List (String × String) → Option (List (String × String))
set_field none table = none
set_field (some (name, val)) table = some (assign name val table)

-- `std::for_each` from `it` to `last`, with fuel for its rounds; `none` if it throws, reads behind the
-- last entry or does not end.
abbrev pub then_next :
    Option Bool
    → Option (List (String × String))
    → (List (String × String) → Option (List (String × String)))
    → List (String × String)
    → Option (List (String × String))
then_next none set rest table = none
then_next (some false) set rest table = some table
then_next (some true) none rest table = none
then_next (some true) (some table') rest table = rest table'

unfoldable pub for_each :
    ℕ → Iterator → Iterator → List (String × String) → Option (List (String × String))
for_each zero it last table = none
for_each (suc fuel) it last table =
    then_next (differs it last) (set_field (current it) table) (for_each fuel (next it) last) table

-- The fields of the table, in the order in which they are set. `time` is the time of the call, `address`
-- and `version` are the string and the kind of the endpoint's address, `bytes_of` gives a string's bytes
-- and `split` is Boost's split iterator. `none` if a header iterator fails, or a cookie is read behind
-- the header's end.
module _ (C D : Container) (bytes_of : String → List ℕ) (split : List ℕ → List (ℕ × ℕ)) where
  abbrev pub cookie_fields : Bool → String → Option (List (String × Value))
  cookie_fields false cookies = some []
  cookie_fields true cookies = elim (push_cookies split (bytes_of cookies)) [
    | ok table ↦ some (("cookies", cookies_table table) ∷ [])
    | err e ↦ none
  ]

  abbrev pub content_fields : Method → List ℕ → List (String × Value)
  content_fields post content = ("content", bytes content) ∷ []
  content_fields _ content = []

  abbrev pub fields :
      ℕ
      → (ℕ → String)
      → (ℕ → ℕ)
      → Incoming C D
      → Option (List (String × String))
      → Option (List (String × Value))
      → Option (List (String × Value))
  fields time address version req none cookies = none
  fields time address version req (some hs) none = none
  fields time address version req (some hs) (some cookies) = some (
      ("timestamp", integer time)
        ∷ ("method", chars (method_string C D req))
        ∷ ("proto", chars (proto C D req))
        ∷ ("host", chars (host C D req))
        ∷ ("path", chars (path C D req))
        ∷ ("headers", headers_table hs)
        ∷ ("remote_addr_str", chars (address (remote_endpoint C D req)))
        ∷ ("remote_addr_ip_ver", integer (version (remote_endpoint C D req)))
        ∷ cookies
      ++ content_fields (method C D req) (content C D req))

  unfoldable pub push_request :
      ℕ → (ℕ → String) → (ℕ → ℕ) → Incoming C D → Option (List (String × Value))
  push_request time address version req =
      fields time address version req
        (for_each (suc (headers_size C D req)) (headers_begin C D req) (headers_end C D req) [])
        (cookie_fields (header_exists C D "cookie" req) (header C D "cookie" req))
