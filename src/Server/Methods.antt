-- ===== src/Server/Methods.antt =====
-- Requests with a method that no handler supports.
use Prim.Native.String.{String}
use mathlib.Core.Option.{some-injective}
use petrel.Prelude.{
  ℕ, ◌≡◌, refl, sym, ap, ◌∙◌, Bool, true, false, List, [], ◌∷◌, Option, none, some, leb, length,
  arith, Option-cases, Bool-cases, inl, inr, take,
}
use petrel.LuaStates.{Manager, Creation}
use petrel.FileCache.{Cache}
use petrel.Server.{
  Method, get, post, other, HeaderMap, Request, Call, Server, new_server, handle_request, finish,
  finish_defined, serve_lua, serve_static, count_request, Lookup, undefined, out_of_range, gives,
  send_response, reply, find_static_file,
}

-- What a handler is called with; a request brings its own response, and a route its counters.
pub data Event (H : Type 0) : Type 0 where
  calls_lua :
      Method → Bool → ℕ → Creation → Bool → List ℕ → Bool → Call → ℕ → ℕ → Request H → Event H
  asks_file : Method → ℕ → List ℕ → List ℕ → List ℕ → ℕ → ℕ → Request H → Event H

-- The counters of the route that the request goes to.
abbrev pub at_route : Server → ℕ → ℕ → Server
at_route s requests errors = record s { route_requests = requests; route_errors = errors }

module _ (text : List ℕ → String) (M : HeaderMap) where
  open M use {Headers}

  unfoldable pub step : Server → Event Headers → Option (Server × Request Headers)
  step s (calls_lua method starts thread creation reloads objs pushes call n e req) =
      serve_lua M method starts thread creation reloads objs pushes call (at_route s n e) req
  step s (asks_file method thread dir path req_path n e req) =
      serve_static text M method thread dir path req_path (at_route s n e) req

  unfoldable pub run : Server → List (Event Headers) → Option Server
  run s [] = some s
  run s (e ∷ es) = elim (step s e) [ none ↦ none | some (s', req) ↦ run s' es ]

  kept :
      {p q : Server × Request Headers} → some p ≡ some q → p.0.not_impl ≡ none → q.0.not_impl ≡ none
  kept h n = ap (λ (p : Server × Request Headers). p.0.not_impl) (sym (some-injective _ _ h)) ∙ n

  finish-not_impl :
      (s : Server) (r : Manager × Request Headers × Bool) → (finish M s r).0.not_impl ≡ s.not_impl
  finish-not_impl s (m, req, false) = refl
  finish-not_impl s (m, req, true) = refl

  finish_defined-not_impl :
      (s s' : Server) (req' : Request Headers) (o : Option (Manager × Request Headers × Bool))
      → s.not_impl ≡ none
      → finish_defined M s o ≡ some (s', req')
      → s'.not_impl ≡ none
  finish_defined-not_impl s s' req' none n h = absurd (ground arith)
  finish_defined-not_impl s s' req' (some r) n h = kept h (finish-not_impl s r ∙ n)

  serve_lua-not_impl :
      (method : Method) (starts : Bool) (thread : ℕ) (creation : Creation) (reloads : Bool)
      (objs : List ℕ) (pushes : Bool) (call : Call) (s s' : Server) (req req' : Request Headers)
      → s.not_impl ≡ none
      → serve_lua M method starts thread creation reloads objs pushes call s req ≡ some (s', req')
      → s'.not_impl ≡ none
  unfolding serve_lua
  serve_lua-not_impl other starts thread creation reloads objs pushes call s s' req req' n h =
      absurd (ground arith)
  serve_lua-not_impl get true thread creation reloads objs pushes call s s' req req' n h =
      finish_defined-not_impl (count_request M s) s' req'
        (handle_request M thread creation reloads objs pushes call s.pool req) n h
  serve_lua-not_impl post true thread creation reloads objs pushes call s s' req req' n h =
      finish_defined-not_impl (count_request M s) s' req'
        (handle_request M thread creation reloads objs pushes call s.pool req) n h
  serve_lua-not_impl get false thread creation reloads objs pushes call s s' req req' n h = kept h n
  serve_lua-not_impl post false thread creation reloads objs pushes call s s' req req' n h =
      kept h n

  reply-not_impl :
      (s s' : Server) (req req' : Request Headers) (l : Cache × Lookup)
      → s.not_impl ≡ none
      → reply text M s req l ≡ some (s', req')
      → s'.not_impl ≡ none
  reply-not_impl s s' req req' (cache, undefined) n h = absurd (ground arith)
  reply-not_impl s s' req req' (cache, out_of_range) n h = absurd (ground arith)
  reply-not_impl s s' req req' (cache, gives none) n h = kept h n
  reply-not_impl s s' req req' (cache, gives (some f)) n h =
      elim (Bool-cases (leb f.size (length f.file_data))) [
        | inl e ↦
            let sends : reply text M s req (cache, gives (some f))
                ≡ some (
                  count_request M (record s { cache = cache }),
                  send_response M 200 (take f.size f.file_data) req,
                ) =
              rw e refl in
            kept (sym sends ∙ h) n
        | inr e ↦ absurd (ground arith)
      ]

  serve_static-not_impl :
      (method : Method) (thread : ℕ) (dir path req_path : List ℕ) (s s' : Server)
      (req req' : Request Headers)
      → s.not_impl ≡ none
      → serve_static text M method thread dir path req_path s req ≡ some (s', req')
      → s'.not_impl ≡ none
  unfolding serve_static
  serve_static-not_impl get thread dir path req_path s s' req req' n h =
      reply-not_impl s s' req req' (find_static_file text thread dir path req_path s.cache) n h
  serve_static-not_impl post thread dir path req_path s s' req req' n h = kept h n
  serve_static-not_impl other thread dir path req_path s s' req req' n h = kept h n

  run-not_impl :
      (s s' : Server) (es : List (Event Headers))
      → s.not_impl ≡ none
      → run s es ≡ some s'
      → s'.not_impl ≡ none
  unfolding run step
  run-not_impl s s' [] n h = ap (λ k. k.not_impl) (sym (some-injective _ _ h)) ∙ n
  run-not_impl s s' (e ∷ es) n h = elim (Option-cases (step s e)) [
    | inl stops ↦ absurd (ground arith)
    | inr ((k, q), goes) ↦ run-not_impl k s' es (one e goes) (sym (rw (goes, run) refl) ∙ h)
  ]
    where
      one :
          {k : Server} {q : Request Headers} (e : Event Headers)
          → step s e ≡ some (k, q)
          → k.not_impl ≡ none
      one (calls_lua method starts thread creation reloads objs pushes call i j req) g =
          serve_lua-not_impl method starts thread creation reloads objs pushes call (at_route s i j)
            _ req _ n g
      one (asks_file method thread dir path req_path i j req) g =
          serve_static-not_impl method thread dir path req_path (at_route s i j) _ req _ n g

  -- Whatever requests a new server has answered, a request to a Lua route with a method that is
  -- neither GET nor POST makes the handler use a null pointer instead of sending status 501.
  pub unsupported_method :
      (pool : Manager) (cache : Cache) (es : List (Event Headers)) (s : Server) (starts : Bool)
      (thread : ℕ) (creation : Creation) (reloads : Bool) (objs : List ℕ) (pushes : Bool)
      (call : Call) (req : Request Headers)
      → run (new_server pool cache) es ≡ some s
      → serve_lua M other starts thread creation reloads objs pushes call s req ≡ none
  unfolding serve_lua
  unsupported_method pool cache es s starts thread creation reloads objs pushes call req h =
      rw (run-not_impl (new_server pool cache) s es (unfold new_server in refl) h) refl
