-- ===== src/Server.antt =====
-- How a request is answered: the handlers that `add_route` and `add_directory_route` of
-- src/core/server_impl.cpp register, `lua_engine::handle_request` of src/core/lua_engine.cpp and the
-- responses of src/core/request.h. The container of the response's headers, which Boost.Http or
-- nghttp2 brings, is the interface `HeaderMap`. What Lua and the fiber library do is an argument.
pub mod Dispatch
pub mod Answers
pub mod Pool
pub mod Methods
mod Tests
use Prim.Native.String.{String}
use petrel.Prelude.{
  ℕ, ◌+◌, ◌≡◌, Bool, true, false, List, [], ◌∷◌, ◌++◌, Option, none, some, ◌==◌, ltb, leb, length,
  take, drop, if◌then◌else◌, ◌||◌,
}
use petrel.Metrics.Counter.{increment}
use petrel.LuaStates.{Manager, Creation, Result, ok, throws, set_objects, get_state, free_state}
use petrel.FileCache.{File, Cache, get_file}

pub data Method : Type 0 where
  get post other : Method

pub record HeaderMap : Type 1 where
  pub Headers : Type 0
  pub emplace : String → String → Headers → Headers
  pub has : String → Headers → Bool
  pub to_string : ℕ → String

-- `mode::HTTP` and `mode::HTTP2`
pub data Mode : Type 0 where
  http http2 : Mode

pub record Response (H : Type 0) : Type 0 where
  pub status : ℕ
  pub headers : H
  pub content : List ℕ

-- A request with the headers and the body of its response, and what was sent to the client.
pub record Request (H : Type 0) : Type 0 where
  pub mode : Mode
  pub headers : H
  pub body : List ℕ
  pub sent : List (Response H)

-- A Lua value as `lua_isstring` and `lua_tostring` see it; a number comes with its text.
pub data Scalar : Type 0 where
  chars : String → Scalar
  number : String → Scalar
  neither : Scalar

-- What the call of the Lua function comes to, in the order of the checks of `handle_request`.
-- The entries of the headers' table come in the order of `lua_next`.
pub data Call : Type 0 where
  not_function : Call
  call_fails : Call
  not_table : Call
  bad_status : Call
  bad_headers : Call
  bad_content : List (Scalar × Scalar) → Call
  responds : ℕ → List (Scalar × Scalar) → List ℕ → Call

-- The state that the handlers share. A counter of a route belongs to the closure that is installed
-- for it; `not_impl` is `none` for a null pointer.
pub record Server : Type 0 where
  pub pool : Manager
  pub cache : Cache
  pub requests : ℕ
  pub errors : ℕ
  pub not_impl : Option ℕ
  pub route_requests : ℕ
  pub route_errors : ℕ

module _ (M : HeaderMap) where
  open M use {Headers, emplace, has, to_string}

  unfoldable pub add_header : String → String → Request Headers → Request Headers
  add_header name val req = record req { headers = emplace name val req.headers }

  -- One round of the loop over the headers. `lua_tostring` turns a key that is a number into a
  -- string in its place, and what `lua_next` does with it then is not defined (`none`).
  abbrev pub put_entry : Scalar → Scalar → Request Headers → Option (Request Headers)
  put_entry (chars name) (chars val) req = some (add_header name val req)
  put_entry (chars name) (number val) req = some (add_header name val req)
  put_entry (number name) (chars val) req = none
  put_entry (number name) (number val) req = none
  put_entry _ _ req = some req

  unfoldable pub add_headers : List (Scalar × Scalar) → Request Headers → Option (Request Headers)
  add_headers [] req = some req
  add_headers ((name, val) ∷ hs) req = elim (put_entry name val req) [
    | none ↦ none
    | some q ↦ add_headers hs q
  ]

  abbrev pub with_server : Request Headers → Request Headers
  with_server req = if has "server" req.headers then req else add_header "server" "petrel" req

  -- The two cases of `send_response`. Nothing reads the headers once HTTP/2 has moved them out.
  abbrev pub send : Mode → ℕ → List ℕ → Request Headers → Request Headers
  send http code content req = record req {
    body = req.body ++ content;
    sent =
        req.sent
        ++ record { status = code; headers = req.headers; content = req.body ++ content } ∷ [];
  }
  send http2 code content req = record req {
    sent =
        req.sent
        ++ record {
          status = code;
          headers = emplace "content-length" (to_string (length content)) req.headers;
          content = content;
        }
          ∷ [];
  }

  unfoldable pub send_response : ℕ → List ℕ → Request Headers → Request Headers
  send_response code content req = send req.mode code content (with_server req)

  unfoldable pub send_error_response : ℕ → Request Headers → Request Headers
  send_error_response code req = send_response code [] req

  -- The rest of `handle_request` behind the call; the flag says that it throws.
  abbrev pub answer :
      ℕ → ℕ → Call → Manager → Request Headers → Option (Manager × Request Headers × Bool)
  answer thread l (bad_content hs) m req = elim (add_headers hs req) [
    | none ↦ none
    | some q ↦ some (m, q, true)
  ]
  answer thread l (responds status hs content) m req = elim (add_headers hs req) [
    | none ↦ none
    | some q ↦ some (free_state thread l m, send_response status content q, false)
  ]
  answer thread l _ m req = some (m, req, true)

  abbrev pub call_in :
      ℕ
      → List ℕ
      → Bool
      → Call
      → Request Headers
      → Manager × Result
      → Option (Manager × Request Headers × Bool)
  call_in thread objs pushes call req (m, throws) = some (m, req, true)
  call_in thread objs pushes not_function req (m, ok l) = some (m, req, true)
  call_in thread objs false call req (m, ok l) = none
  call_in thread objs true call req (m, ok l) =
      answer thread l call (record m { objects = set_objects m.objects l objs }) req

  -- `handle_request` on a thread; `objs` are the library objects that the call makes, and `pushes`
  -- says that `push_request`, which Incoming has, gives a table. `none` has no defined behaviour.
  unfoldable pub handle_request :
      ℕ
      → Creation
      → Bool
      → List ℕ
      → Bool
      → Call
      → Manager
      → Request Headers
      → Option (Manager × Request Headers × Bool)
  handle_request thread creation reloads objs pushes call m req =
      call_in thread objs pushes call req (get_state thread creation reloads m)

  abbrev pub count_request : Server → Server
  count_request s = record s {
    requests = (increment s.requests 1).0;
    route_requests = (increment s.route_requests 1).0;
  }

  abbrev pub count_error : Server → Server
  count_error s = record s {
    errors = (increment s.errors 1).0;
    route_errors = (increment s.route_errors 1).0;
  }

  -- The function that runs in the fiber, from the result of `handle_request`.
  abbrev pub finish : Server → Manager × Request Headers × Bool → Server × Request Headers
  finish s (m, req, false) = (record s { pool = m }, req)
  finish s (m, req, true) = (count_error (record s { pool = m }), send_error_response 500 req)

  abbrev pub finish_defined :
      Server → Option (Manager × Request Headers × Bool) → Option (Server × Request Headers)
  finish_defined s none = none
  finish_defined s (some r) = some (finish s r)

  -- The closure of `add_route`; `starts` says that a fiber could be had. `none` is a fault: a null
  -- pointer is used, or `handle_request` has no defined behaviour.
  unfoldable pub serve_lua :
      Method
      → Bool
      → ℕ
      → Creation
      → Bool
      → List ℕ
      → Bool
      → Call
      → Server
      → Request Headers
      → Option (Server × Request Headers)
  serve_lua other starts thread creation reloads objs pushes call s req = elim s.not_impl [
    | none ↦ none
    | some n ↦ some (record s { not_impl = some (increment n 1).0 }, send_error_response 501 req)
  ]
  serve_lua _ true thread creation reloads objs pushes call s req =
      finish_defined (count_request s)
        (handle_request thread creation reloads objs pushes call s.pool req)
  serve_lua _ false thread creation reloads objs pushes call s req =
      some (count_error (count_request s), send_error_response 500 req)

-- What `find_static_file` does: the access to the last byte of an empty path has no defined result,
-- and `substr` throws if the route's path is longer than the request's.
pub data Lookup : Type 0 where
  undefined : Lookup
  out_of_range : Lookup
  gives : Option File → Lookup

abbrev pub ends_with_slash : List ℕ → Bool
ends_with_slash [] = false
ends_with_slash (c ∷ []) = c == 47
ends_with_slash (c ∷ d ∷ r) = ends_with_slash (d ∷ r)

-- `text` makes a string of bytes.
module _ (text : List ℕ → String) where
  unfoldable pub find_static_file : ℕ → List ℕ → List ℕ → List ℕ → Cache → Cache × Lookup
  find_static_file thread dir path [] cache = (cache, undefined)
  find_static_file thread dir path (c ∷ r) cache =
      if ends_with_slash (c ∷ r)
      then (cache, gives none)
      else (if ltb (length (c ∷ r)) (length path)
          then (cache, out_of_range)
          else (let (cache', file) =
                get_file thread (text (dir ++ drop (length path) (c ∷ r))) cache in
              (cache', gives file)))

  module _ (M : HeaderMap) where
    open M use {Headers}

    -- The response with a file reads `size` bytes of its buffer.
    abbrev pub reply : Server → Request Headers → Cache × Lookup → Option (Server × Request Headers)
    reply s req (cache, gives (some f)) =
        if leb f.size (length f.file_data)
        then some (
          count_request M (record s { cache = cache }),
          send_response M 200 (take f.size f.file_data) req,
        )
        else none
    reply s req (cache, gives none) =
        some (count_error M (record s { cache = cache }), send_error_response M 404 req)
    reply s req (cache, _) = none

    -- The closure of `add_directory_route`. `none` is a fault or an exception that nothing catches.
    unfoldable pub serve_static :
        Method
        → ℕ
        → List ℕ
        → List ℕ
        → List ℕ
        → Server
        → Request Headers
        → Option (Server × Request Headers)
    serve_static get thread dir path req_path s req =
        reply s req (find_static_file thread dir path req_path s.cache)
    serve_static _ thread dir path req_path s req =
        some (count_error M s, send_error_response M 404 req)

-- The constructor. `m_metric_errors` is assigned twice, so `errors` counts in the meter that is
-- registered as "not_implemented", and `m_metric_not_impl` is left null.
unfoldable pub new_server : Manager → Cache → Server
new_server pool cache = record {
  pool = pool;
  cache = cache;
  requests = 0;
  errors = 0;
  not_impl = none;
  route_requests = 0;
  route_errors = 0;
}
