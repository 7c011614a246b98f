-- ===== src/Setup.antt =====
-- The life of a server: the constructor, `init`, `start`, `stop` and `join` of
-- src/core/server_impl.cpp with the threads of src/core/worker.cpp and src/metrics/registry.cpp.
-- What the bootstrap function, the resolver, the sockets, nghttp2 and OpenSSL answer is an argument. A
-- stop or join that would wait for ever has no value.
pub mod Threads
pub mod Lifecycle
mod Tests
use petrel.Prelude.{
  ℕ, zero, suc, ◌+◌, ◌%◌, Bool, true, false, ◌&&◌, not, List, [], ◌∷◌, ◌++◌, map, Option, none,
  some, ◌==◌, ltb, length, get_elem?, set, replicate, if◌then◌else◌,
}

-- A thread that runs an io service: a worker with its acceptors, or the registry.
pub record Life : Type 0 where
  pub acceptors : List ℕ  -- the open ones
  pub stop : Bool
  pub running : Bool  -- the thread was started and not yet joined
  pub io_stopped : Bool

pub new_life : Life
new_life = record { acceptors = []; stop = false; running = false; io_stopped = false }

unfoldable pub start_thread : Life → Life
start_thread w = record w { running = true }

-- `stop`, whose acceptors are closed.
unfoldable pub stop_thread : Life → Life
stop_thread w = if w.stop then w else record w { stop = true; acceptors = []; io_stopped = true }

-- `join` waits for the io service, which only `stop` ends.
unfoldable pub join_thread : Life → Option Life
join_thread w =
    if w.running
    then (if w.io_stopped then some (record w { running = false }) else none)
    else some w

abbrev pub join_all : List Life → Option (List Life)
join_all [] = some []
join_all (w ∷ ws) = elim (join_thread w) [
  | none ↦ none
  | some v ↦ elim (join_all ws) [ none ↦ none | some vs ↦ some (v ∷ vs) ]
]

-- The server of nghttp2.
pub data Http2 : Type 0 where
  idle serving stopped joined : Http2

-- What the members `m_stop_func` and `m_join_func` hold.
pub data Mode : Type 0 where
  none_yet over_http over_http2 : Mode

pub record Options : Type 0 where
  pub workers : Option ℕ  -- none if the option is negative
  pub http1 : Bool
  pub tls : Bool
  pub key_file : Bool
  pub crt_file : Bool

pub record Server : Type 0 where
  pub num_workers : ℕ
  pub http2_threads : ℕ
  pub http2 : Http2
  pub workers : List Life
  pub next_worker : ℕ
  pub num_routes : ℕ
  pub registry : Life
  pub services_registered : Bool
  pub mode : Mode

pub data Error : Type 0 where
  bootstrap_failed no_routes listen_failed no_key no_crt tls_failed : Error

pub data Result : Type 0 where
  ok : Server → Result
  throws : Error → Result

-- The constructor; `online` is what sysconf says, none for an error.
abbrev pub at_least_one : Option ℕ → ℕ
at_least_one none = 1
at_least_one (some n) = if ltb n 1 then 1 else n

abbrev pub num_workers_of : Option ℕ → Option ℕ → ℕ
num_workers_of none online = 1
num_workers_of (some n) online = at_least_one (if n == 0 then online else some n)

unfoldable pub new_server : Options → Option ℕ → Server
unfolding new_life
new_server o online = record {
  num_workers = num_workers_of o.workers online;
  http2_threads = 1;
  http2 = idle;
  workers = [];
  next_worker = 0;
  num_routes = 0;
  registry = new_life;
  services_registered = false;
  mode = none_yet;
}

abbrev pub make_workers : Options → Server → Server
make_workers o s =
    if not o.http1
    then (if ltb 1 s.num_workers then record s { http2_threads = s.num_workers } else s)
    else record s { workers = replicate s.num_workers new_life }

-- `init`; `bootstrap` is how many routes the bootstrap function adds, none if it throws.
unfoldable pub init : Options → Option ℕ → Server → Result
unfolding start_thread new_life
init o none s = throws bootstrap_failed
init o (some routes) s =
    let t = make_workers o s in
    let n = t.num_routes + routes in
    if n == 0
    then throws no_routes
    else ok (record t { num_routes = n; registry = start_thread t.registry })

-- The loop over the endpoints, with the answers to `add_endpoint`; `true` if one succeeded.
unfoldable pub add_endpoint : ℕ → ℕ → List Life → List Life
add_endpoint worker endpoint ws = elim (get_elem? ws worker) [
  | none ↦ ws
  | some w ↦ set ws worker (record w { acceptors = w.acceptors ++ endpoint ∷ [] })
]

unfoldable pub add_endpoints : List (ℕ × Bool) → Server → Server × Bool
unfolding add_endpoint
add_endpoints [] s = (s, false)
add_endpoints ((endpoint, accepted) ∷ es) s =
    let worker = s.next_worker % length s.workers in
    let t : Server = record s {
      next_worker = s.next_worker + 1;
      workers = if accepted then add_endpoint worker endpoint s.workers else s.workers;
    } in
    let (u, success) = add_endpoints es t in (u, if accepted then true else success)

unfoldable pub start_http : List (ℕ × Bool) → Server → Result
unfolding add_endpoints start_thread
start_http es s =
    let (t, success) = add_endpoints es s in
    if success
    then ok (record t {
      workers = map start_thread t.workers;
      services_registered = true;
      mode = over_http;
    })
    else throws listen_failed

-- `run_http2_server` and the end of `run_http2_tls_server`.
abbrev pub serve_http2 : Bool → Server → Result
serve_http2 listens s =
    if listens
    then ok (record s { http2 = serving; services_registered = true; mode = over_http2 })
    else throws listen_failed

-- `configured` is whether OpenSSL takes the files and the context.
abbrev pub run_http2_tls_server : Options → Bool → Bool → Server → Result
run_http2_tls_server o configured listens s =
    if not o.key_file
    then throws no_key
    else if not o.crt_file
    then throws no_crt
    else if not configured
    then throws tls_failed
    else serve_http2 listens s

unfoldable pub start : Options → List (ℕ × Bool) → Bool → Bool → Server → Result
unfolding start_http
start o es configured listens s =
    if not o.http1
    then (if o.tls then run_http2_tls_server o configured listens s else serve_http2 listens s)
    else start_http es s

-- `unregister_io_services` waits until all fibers of the io services are back in their caches:
-- `back` says that they will be, and `none` is a wait for ever.
abbrev pub stop_func : Bool → Server → Option Server
stop_func back s = elim s.mode [
  | none_yet ↦ some s
  | over_http ↦
      if back
      then some (record s { services_registered = false; workers = map stop_thread s.workers })
      else none
  | over_http2 ↦
      if back then some (record s { services_registered = false; http2 = stopped }) else none
]

abbrev pub stop_registry : Option Server → Option Server
stop_registry none = none
stop_registry (some s) = some (record s { registry = stop_thread s.registry })

unfoldable pub stop : Bool → Server → Option Server
unfolding stop_thread
stop back s = stop_registry (stop_func back s)

abbrev pub join_http2 : Http2 → Option Http2
join_http2 serving = none
join_http2 stopped = some joined
join_http2 h = some h

abbrev pub with_workers : Server → Option (List Life) → Option Server
with_workers s none = none
with_workers s (some ws) = some (record s { workers = ws })

abbrev pub with_http2 : Server → Option Http2 → Option Server
with_http2 s none = none
with_http2 s (some h) = some (record s { http2 = h })

abbrev pub with_registry : Server → Option Life → Option Server
with_registry s none = none
with_registry s (some r) = some (record s { registry = r })

abbrev pub join_func : Server → Option Server
join_func s = elim s.mode [
  | none_yet ↦ some s
  | over_http ↦ with_workers s (join_all s.workers)
  | over_http2 ↦ with_http2 s (join_http2 s.http2)
]

abbrev pub join_registry : Option Server → Option Server
join_registry none = none
join_registry (some s) = with_registry s (join_thread s.registry)

unfoldable pub join : Server → Option Server
unfolding join_thread
join s = join_registry (join_func s)
