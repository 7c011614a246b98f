-- ===== src/Setup/Lifecycle.antt =====
-- A server from its constructor to `join`: src/core/server_impl.cpp and src/core/worker.cpp.
use petrel.Prelude.{◌≡◌, ◌≢◌, ◌⊎◌, true, false, [], Option, none, some}
use petrel.Setup.{
  idle, serving, over_http, over_http2, Options, Server, Result, ok, throws, stop, join,
}
use petrel.Setup.Threads.{AllEnded, AllFresh, Ended, Fresh}

-- What a result without an exception satisfies.
abbrev Holds : (Server → Type 0) → Result → Type 0
Holds P (ok s) = P s
Holds P (throws e) = Unit

abbrev Ready : Options → Server → Type 0
Ready o s =
    Fresh s.registry × AllFresh s.workers × (s.http2 ≡ idle) × (o.http1 ≡ false → s.workers ≡ [])

abbrev Started : Server → Type 0
Started s =
    Fresh s.registry
    × AllFresh s.workers
    × (((s.mode ≡ over_http) × (s.http2 ≡ idle))
        ⊎ ((s.mode ≡ over_http2) × (s.workers ≡ []) × (s.http2 ≡ serving)))

-- What `stop` and then `join` come to.
stop_and_join : Server → Option Server
stop_and_join s = elim (stop true s) [ none ↦ none | some t ↦ join t ]

-- What is left of a server after `stop` and `join`.
abbrev pub Down : Server → Type 0
Down u =
    Ended u.registry × AllEnded u.workers × (u.http2 ≢ serving) × (u.services_registered ≡ false)
