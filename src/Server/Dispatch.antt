-- ===== src/Server/Dispatch.antt =====
-- The routes of a server, and the static files that are served below a directory route.
use Prim.Native.String.{String}
use mathlib.Core.Path.{subst}
use mathlib.Core.List.{append_assoc}
use petrel.Prelude.{
  ℕ, ◌+◌, ◌≡◌, refl, sym, ap, ◌∙◌, Bool, true, false, List, [], ◌∷◌, ◌++◌, Option, none, some,
  length, leb, take, drop, if◌then◌else◌, arith, Option-cases, inl, inr, map, length-append,
}
use petrel.Router.{Router, ok, new_router, find_route}
use petrel.Router.Spec.{path_eq, path_eq-eq, longest, latest}
use petrel.Router.Routes.{NonEmptyPaths, add_routes, find_route-add_routes}
use petrel.FileCache.{File, Cache, get_file}
use petrel.Metrics.Counter.{u64, increment}
use petrel.Server.Answers.{Lawful, Sends, send_response-Sends}
use petrel.Server.{
  Method, get, post, other, HeaderMap, Request, Server, send_response, send_error_response,
  count_request, count_error, Lookup, gives, ends_with_slash, find_static_file, reply, serve_static,
}

-- What a handler was made from by `add_route`, `add_directory_route` or the router itself.
pub data Handler : Type 0 where
  lua_route : List ℕ → String → Handler
  directory_route : List ℕ → List ℕ → Handler
  not_found : Handler

-- The call of the router's `add_route` for each route.
abbrev pub registration : Handler → List ℕ × Handler
registration (lua_route path func) = (path, lua_route path func)
registration (directory_route path dir) = (path, directory_route path dir)
registration not_found = ([], not_found)

module _ {A : Type 0} where
  -- What is found is found at a non-empty prefix.
  longest-some :
      (g : List ℕ → Option A) (p : List ℕ) (f : A)
      → longest g p ≡ some f
      → (c : ℕ) × (q : List ℕ) × (rest : List ℕ) × (p ≡ (c ∷ q) ++ rest) × (g (c ∷ q) ≡ some f)
  longest-some g [] f h = absurd (ground arith)
  longest-some g (c ∷ r) f h = elim (Option-cases (longest (λ q. g (c ∷ q)) r)) [
    | inl e ↦ (c, [], r, refl, ground arith)
    | inr (k, e) ↦
        let (d, q, rest, split, found) = longest-some (λ q. g (c ∷ q)) r k e in
        (c, d ∷ q, rest, ap (◌∷◌ c) split, ground arith)
  ]

latest-directory :
    (hs : List Handler) (q path dir : List ℕ)
    → latest (map registration hs) q ≡ some (directory_route path dir)
    → path ≡ q
latest-directory [] q path dir h = absurd (ground arith)
latest-directory (x ∷ hs) q path dir h = elim (Option-cases (latest (map registration hs) q)) [
  | inr (k, e) ↦ latest-directory hs q path dir (ground arith)
  | inl e ↦ last x (ground arith)
]
  where
    last :
        (x : Handler)
        → (if path_eq (registration x).0 q then some (registration x).1 else none)
          ≡ some (directory_route path dir)
        → path ≡ q
    last (lua_route p f) h = ground arith
    last (directory_route p d) h = ground (arith, path_eq-eq p q)
    last not_found h = ground arith

-- A request that is given to a directory route has a path below the route's own.
pub directory_route_prefix :
    (hs : List Handler) (r : Router Handler) (p path dir : List ℕ)
    → NonEmptyPaths (map registration hs)
    → add_routes not_found (new_router not_found not_found) (map registration hs) ≡ ok r
    → find_route r p ≡ directory_route path dir
    → (c : ℕ) × (q : List ℕ) × (rest : List ℕ) × (path ≡ c ∷ q) × (p ≡ path ++ rest)
directory_route_prefix hs r p path dir n built e =
    let (r', built', finds) = find_route-add_routes not_found not_found (map registration hs) n in
    elim (Option-cases (longest (latest (map registration hs)) p)) [
      | inl none_found ↦ absurd (ground (arith, finds p))
      | inr (k, found) ↦
          let (c, q, rest, split, last) = longest-some (latest (map registration hs)) p k found in
          let is_directory : k ≡ directory_route path dir = ground (arith, finds p) in
          let own : path ≡ c ∷ q =
            latest-directory hs (c ∷ q) path dir (last ∙ ap some is_directory) in
          (c, q, rest, own, split ∙ ap (λ l. l ++ rest) (sym own))
    ]

drop-prefix : (p rest : List ℕ) → drop (length p) (p ++ rest) ≡ rest
drop-prefix [] rest = refl
drop-prefix (c ∷ p) rest = drop-prefix p rest

module _ (text : List ℕ → String) where
  -- The file for a path below a route's, if there is one.
  abbrev pub file_below : ℕ → List ℕ → List ℕ → List ℕ → Cache → Option File
  file_below thread dir path rest cache =
      if ends_with_slash (path ++ rest)
      then none
      else (get_file thread (text (dir ++ rest)) cache).1

  find_static_file-below :
      (thread : ℕ) (dir q rest : List ℕ) (c : ℕ) (cache : Cache)
      → (find_static_file text thread dir (c ∷ q) ((c ∷ q) ++ rest) cache).1
        ≡ gives (file_below thread dir (c ∷ q) rest cache)
  unfolding find_static_file
  find_static_file-below thread dir q rest c cache =
      ground (arith, length-append (c ∷ q) rest, drop-prefix (c ∷ q) rest)

abbrev pub found : Method → Option File → Option File
found get f = f
found _ f = none

abbrev pub file_status : Option File → ℕ
file_status none = 404
file_status (some f) = 200

abbrev pub file_content : Option File → List ℕ
file_content none = []
file_content (some f) = take f.size f.file_data

-- The buffer of the file is as long as its size.
abbrev pub is_complete : Option File → Bool
is_complete none = true
is_complete (some f) = leb f.size (length f.file_data)

module _ (text : List ℕ → String) (M : HeaderMap) (lawful : Lawful M) where
  open M use {Headers}

  -- What a directory route's handler comes to, when it has found `file` or nothing.
  pub record Delivered (s : Server) (req : Request Headers) (file : Option File)
      (o : Option (Server × Request Headers)) : Type 0 where
    pub after : Server
    pub replied : Request Headers
    pub returns : o ≡ some (after, replied)
    pub sends : Sends M req replied (file_status file) (file_content file)
    pub requests : after.requests ≡ elim file [ none ↦ s.requests | some f ↦ u64 (s.requests + 1) ]
    pub errors : after.errors ≡ elim file [ none ↦ u64 (s.errors + 1) | some f ↦ s.errors ]

  -- The response reads behind the buffer if that is too short.
  abbrev pub Answered :
      Server → Request Headers → Bool → Option File → Option (Server × Request Headers) → Type 0
  Answered s req true file o = Delivered s req file o
  Answered s req false file o = o ≡ none

  reply-Answered :
      (s : Server) (req : Request Headers) (cache : Cache) (file : Option File) (b : Bool)
      → req.body ≡ []
      → is_complete file ≡ b
      → Answered s req b file (reply text M s req (cache, gives file))
  unfolding send_error_response increment
  reply-Answered s req cache none false b c = absurd (ground arith)
  reply-Answered s req cache none true b c = record {
    after = count_error M (record s { cache = cache });
    replied = send_error_response M 404 req;
    returns = refl;
    sends = send_response-Sends M lawful 404 [] req b;
    requests = refl;
    errors = refl;
  }
  reply-Answered s req cache (some f) false b c = ground arith
  reply-Answered s req cache (some f) true b c = record {
    after = count_request M (record s { cache = cache });
    replied = send_response M 200 (take f.size f.file_data) req;
    returns = ground arith;
    sends = send_response-Sends M lawful 200 (take f.size f.file_data) req b;
    requests = refl;
    errors = refl;
  }

  not_allowed :
      (s : Server) (req : Request Headers)
      → req.body ≡ []
      → Delivered s req none (some (count_error M s, send_error_response M 404 req))
  unfolding send_error_response increment
  not_allowed s req b = record {
    after = count_error M s;
    replied = send_error_response M 404 req;
    returns = refl;
    sends = send_response-Sends M lawful 404 [] req b;
    requests = refl;
    errors = refl;
  }

  serve-Answered :
      (method : Method) (thread : ℕ) (dir q rest : List ℕ) (c : ℕ) (s : Server)
      (req : Request Headers)
      → req.body ≡ []
      → Answered s req
          (is_complete (found method (file_below text thread dir (c ∷ q) rest s.cache)))
          (found method (file_below text thread dir (c ∷ q) rest s.cache))
          (serve_static text M method thread dir (c ∷ q) ((c ∷ q) ++ rest) s req)
  unfolding serve_static
  serve-Answered get thread dir q rest c s req b =
      let file = file_below text thread dir (c ∷ q) rest s.cache in
      subst
        (λ (l : Lookup). Answered s req (is_complete file) file (
          reply text M s req
            ((find_static_file text thread dir (c ∷ q) ((c ∷ q) ++ rest) s.cache).0, l)))
        (sym (find_static_file-below text thread dir q rest c s.cache))
        (reply-Answered s req _ file (is_complete file) b refl)
  serve-Answered post thread dir q rest c s req b = not_allowed s req b
  serve-Answered other thread dir q rest c s req b = not_allowed s req b

  -- A request whose path the router gives to a directory route has a path that begins with the
  -- route's own, whatever follows it (the query of an HTTP/2 request). If the method is GET, the
  -- whole does not end with a slash and the cache has the file below the directory, but its buffer
  -- is shorter than its size, the access is out of range. In every other case exactly one response
  -- is sent, with status 200 and the file's bytes, or with status 404 if there is no such file, and
  -- it is counted as a request or an error. The routes have non-empty paths, and the request has no
  -- response yet.
  pub directory_route-Delivered :
      (hs : List Handler) (r : Router Handler) (p path dir query : List ℕ) (method : Method)
      (thread : ℕ) (s : Server) (req : Request Headers)
      → NonEmptyPaths (map registration hs)
      → add_routes not_found (new_router not_found not_found) (map registration hs) ≡ ok r
      → find_route r p ≡ directory_route path dir
      → req.body ≡ []
      → (rest : List ℕ) × (p ≡ path ++ rest)
        × Answered s req
            (is_complete (found method (file_below text thread dir path (rest ++ query) s.cache)))
            (found method (file_below text thread dir path (rest ++ query) s.cache))
            (serve_static text M method thread dir path (p ++ query) s req)
  directory_route-Delivered hs r p path dir query method thread s req n built routed b =
      let (c, q, rest, own, split) = directory_route_prefix hs r p path dir n built routed in
      let whole : p ++ query ≡ (c ∷ q) ++ (rest ++ query) =
        ap (λ l. l ++ query) (split ∙ ap (λ l. l ++ rest) own) ∙ append_assoc (c ∷ q) rest query in
      (
        rest,
        split,
        subst (λ (l : List ℕ). Served path (rest ++ query) l) (sym whole)
            (subst (λ (k : List ℕ). Served k (rest ++ query) ((c ∷ q) ++ (rest ++ query))) (sym own)
              (serve-Answered method thread dir q (rest ++ query) c s req b)),
      )
    where
      Served : List ℕ → List ℕ → List ℕ → Type 0
      Served k below l =
          Answered s req (is_complete (found method (file_below text thread dir k below s.cache)))
            (found method (file_below text thread dir k below s.cache))
            (serve_static text M method thread dir k l s req)
