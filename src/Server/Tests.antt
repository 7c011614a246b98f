-- ===== src/Server/Tests.antt =====
-- The theorems on the handlers at a concrete pool, cache and request.
use text.Mathlib.Text.{◌==◌ as str_eq}
use text.Mathlib.TextEquality.{eq_iff}
use Prim.Native.String.{String}
use petrel.Prelude.{
  ℕ, ◌+◌, ◌≡◌, refl, Bool, true, false, List, [], ◌∷◌, ◌++◌, some, none, if◌then◌else◌, ◌==◌, count,
  arith, map,
}
use petrel.Maps.{lookup}
use petrel.LuaStates.{Manager, set_objects, loads, get_state, take_state}
use petrel.LuaStates.Ownership.Caches.{caches}
use petrel.Metrics.Counter.{increment}
use petrel.Router.Spec.{path_eq}
use petrel.Router.{
  Router, Result, ok, err, new_router, add_route, find_route, insert, insert_from, find, find_from,
  children,
}
use petrel.Router.Routes.{add_routes}
use petrel.FileCache.{File, Cache, get_file, get_file_main}
use petrel.Server.{
  get, other, chars, number, neither, HeaderMap, http2, Request, Call, call_fails, responds, Server,
  new_server, handle_request, serve_lua, serve_static, find_static_file, add_header, send_response,
}
use petrel.Server.Answers.{Lawful}
use petrel.Server.Pool.{gives_response, handle_request-caches}
use petrel.Server.Dispatch.{
  Handler, lua_route, directory_route, not_found, registration, Answered, found, file_below,
  is_complete, directory_route-Delivered,
}
use petrel.Server.Methods.{run, unsupported_method}

abbrev has_name : String → List (String × String) → Bool
has_name name [] = false
has_name name ((n, v) ∷ hs) = if str_eq n name then true else has_name name hs

-- Headers as a list of entries.
abbrev header_list : HeaderMap
header_list = record {
  Headers = List (String × String);
  emplace = λ name val h. (name, val) ∷ h;
  has = has_name;
  to_string = λ n. if n == 2 then "2" else "?";
}

header_list-Lawful : Lawful header_list
header_list-Lawful = record {
  has_emplaced = λ name val h. ground (arith, eq_iff name name);
  still_has = λ name added val h e. ground arith;
}

abbrev pool : Manager
pool = record {
  state_cache = 0 ∷ [];
  state_cache_local = none ∷ [];
  objects = λ l. [];
  code = [];
  dev_mode = false;
  created = 1;
  closed = [];
}

abbrev hello : File
hello = record { name = "/w/a"; file_data = 104 ∷ 105 ∷ []; size = 2; time = 9; good = true }

abbrev cache : Cache
cache = record {
  directories = [];
  file_map = ("/w/a", hello) ∷ [];
  file_map_local = λ thread. none;
  iosvcs = [];
  queue = λ thread. [];
}

abbrev server : Server
server = record {
  pool = pool;
  cache = cache;
  requests = 0;
  errors = 0;
  not_impl = none;
  route_requests = 0;
  route_errors = 0;
}

abbrev request : Request (List (String × String))
request = record { mode = http2; headers = []; body = []; sent = [] }

abbrev reply : Call
reply = responds 200 ((chars "x", number "1") ∷ (neither, chars "y") ∷ []) (104 ∷ 105 ∷ [])

-- The call fails, and the pool has lost its state.
abbrev after_failure : Manager × Request (List (String × String)) × Bool
after_failure = (record pool { state_cache = [] }, request, true)

handle_request-caches_example :
    caches 0 after_failure.0 + (if gives_response call_fails then 0 else count 0 (0 ∷ []))
    ≡ caches 0 pool
unfolding take_state handle_request get_state
handle_request-caches_example =
    handle_request-caches header_list 0 loads true [] true call_fails pool request 0 0
      ((record pool { state_cache = []; objects = set_objects pool.objects 0 [] }), request, true)
      refl refl refl

unsupported_method_example :
    serve_lua header_list other true 0 loads true [] true reply (new_server pool cache) request
    ≡ none
unfolding run
unsupported_method_example =
    unsupported_method (λ bytes. "") header_list pool cache [] (new_server pool cache) true 0 loads
      true [] true reply request refl

-- "/s", served from the directory "/w".
abbrev routes : List Handler
routes = directory_route (47 ∷ 115 ∷ []) (47 ∷ 119 ∷ []) ∷ lua_route (47 ∷ 120 ∷ []) "f" ∷ []

abbrev text_of : List ℕ → String
text_of bytes = if path_eq bytes (47 ∷ 119 ∷ 47 ∷ 97 ∷ []) then "/w/a" else "?"

abbrev router : Result (Router Handler)
router = add_routes not_found (new_router not_found not_found) (map registration routes)

abbrev built : Router Handler
built = elim router [ ok r ↦ r | err e ↦ new_router not_found not_found ]

-- A request of "/s/a".
directory_route-Delivered_example :
    (rest : List ℕ) × (47 ∷ 115 ∷ 47 ∷ 97 ∷ [] ≡ (47 ∷ 115 ∷ []) ++ rest)
    × Answered text_of header_list header_list-Lawful server request
        (is_complete
          (found get (file_below text_of 0 (47 ∷ 119 ∷ []) (47 ∷ 115 ∷ []) (rest ++ []) cache)))
        (found get (file_below text_of 0 (47 ∷ 119 ∷ []) (47 ∷ 115 ∷ []) (rest ++ []) cache))
        (serve_static text_of header_list get 0
          (47 ∷ 119 ∷ [])
          (47 ∷ 115 ∷ [])
          ((47 ∷ 115 ∷ 47 ∷ 97 ∷ []) ++ [])
          server
          request)
unfolding new_router add_route add_routes insert insert_from children find_route find find_from
directory_route-Delivered_example =
    directory_route-Delivered text_of header_list header_list-Lawful routes built
      (47 ∷ 115 ∷ 47 ∷ 97 ∷ []) (47 ∷ 115 ∷ []) (47 ∷ 119 ∷ []) [] get 0 server request
      ((λ e. absurd (ground arith)), ((λ e. absurd (ground arith)), tt)) refl refl refl

served_file :
    (serve_static text_of header_list get 0
      (47 ∷ 119 ∷ [])
      (47 ∷ 115 ∷ [])
      (47 ∷ 115 ∷ 47 ∷ 97 ∷ [])
      server
      request)
    ≡ some (
      record server { requests = 1; route_requests = 1 },
      record request {
        headers = ("server", "petrel") ∷ [];
        sent =
            record {
              status = 200;
              headers = ("content-length", "2") ∷ ("server", "petrel") ∷ [];
              content = 104 ∷ 105 ∷ [];
            }
            ∷ [];
      },
    )
unfolding serve_static find_static_file send_response add_header get_file get_file_main lookup
    increment
served_file = refl
