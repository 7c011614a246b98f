-- ===== src/Setup/Tests.antt =====
-- A server over HTTP/1.1 with two workers and two endpoints, of which one cannot be bound.
use petrel.Prelude.{ℕ, ◌≡◌, refl, Bool, true, false, List, [], ◌∷◌, some}
use petrel.Setup.{Life, Options, Server, throws, no_key, start, stop, idle, none_yet, over_http}

abbrev options : Options
options = record { workers = some 0; http1 = true; tls = false; key_file = false; crt_file = false }

abbrev endpoints : List (ℕ × Bool)
endpoints = (4, false) ∷ (6, true) ∷ []

abbrev running : List ℕ → Life
running acceptors = record {
  acceptors = acceptors;
  stop = false;
  running = true;
  io_stopped = false;
}

abbrev ready : Server
ready = record {
  num_workers = 2;
  http2_threads = 1;
  http2 = idle;
  workers = record (running []) { running = false } ∷ record (running []) { running = false } ∷ [];
  next_worker = 0;
  num_routes = 1;
  registry = running [];
  services_registered = false;
  mode = none_yet;
}

abbrev started : Server
started = record ready {
  workers = running [] ∷ running (6 ∷ []) ∷ [];
  next_worker = 2;
  services_registered = true;
  mode = over_http;
}

-- TLS without a private key.
tls_throws : start (record options { http1 = false; tls = true }) [] true true ready ≡ throws no_key
unfolding start
tls_throws = refl
