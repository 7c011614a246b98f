-- ===== src/Lib.antt =====
-- A verification library of petrel, an HTTP server that answers requests with Lua functions and static
-- files. The server finds a handler for a request's path in a router; a Lua handler takes a Lua state
-- out of a pool, calls a function in it and sends what it returns; a directory handler sends a file
-- out of a cache; meters and timers of a registry count the requests. Io services run on threads,
-- and the pool and the file cache keep a part for each thread next to a shared part under a mutex.
--
-- The modules and the code that they model:
--   Prelude      shared names, Boolean tests and lists over the native numbers
--   Maps         maps with strings as keys, for the std::unordered_map members
--   Router       core/router.h: path_set and router. Spec says what a router promises without the
--                trie, Entries and Find relate the trie to it, Routes joins them.
--   Cookies      core/lua_engine.cpp: push_cookies, over the header's bytes with the NUL behind them
--   Metrics      metrics/counter.h (Counter), metrics/meter.h (Meter), metrics/timer.h (Timer) and
--                metrics/registry.h with the fiber loop of metrics/registry.cpp (Registry); Reports
--                is what is sent to graphite
--   LuaStates    core/lua_state_manager.h and .cpp: the pool of Lua states. Ownership adds the states
--                that requests hold, and its runs are sequences of pool operations on any threads.
--                Bootstrap is bootstrap of core/lua_engine.cpp.
--   FileCache    core/file_cache.h and .cpp: the maps of files and the tasks posted to the threads.
--                Coherence runs the operations interleaved, with add_file in two halves; Scan is the
--                scan of directories and the round of the refreshing thread.
--   Server       core/server_impl.cpp, core/request.h and core/lua_engine.cpp: the handlers that
--                add_route and add_directory_route install, handle_request, and the response
--   Incoming     core/request.h and core/request.cpp: the accessors and the header iterator, and
--                push_request of core/lua_engine.cpp
--   Fibers       core/fiber_cache.h and .cpp, on one thread
--   Resolver     core/resolver_cache.h: the cache of DNS answers
--   Workers      core/worker.cpp and get_worker of core/server_impl.h: who serves a client
--   Clients      core/session.cpp and the handler of start_http2 in core/server_impl.cpp
--   Services     core/server_impl.cpp: register_io_services and unregister_io_services
--   Hash         lib/builtin/hash.cpp: the texts of hashes, and fnv
--   LuaUtils     core/lua_utils.cpp: printing, dump_stack (Dump), and the search for scripts (Scripts)
--   Libraries    the registration and loading of libraries in core/lua_state_manager.cpp with
--                lua_requiref of core/lua_utils.cpp (Loading), the search path and load_lib of
--                lib/builtin/petrel.cpp (Search), and the macros of lib/library.h (Objects)
--   LuaMetric    lib/builtin/metric.h and metric.cpp: the metric objects of Lua programs
--   Log          core/log.h and core/log.cpp: priorities, texts and the buffer
--   Texts        what the code uses of std::string, std::getline and std::atoi
--   HttpClient   lib/builtin/http_client.h and http_client.cpp: the client for HTTP/1.1. Response
--                describes responses, Exchange reads them.
--   Setup        core/server_impl.cpp with core/worker.cpp: the life of a server, from the constructor
--                to join (Lifecycle).
--   Http2Client  lib/builtin/http2_client.h and http2_client.cpp: the client for HTTP/2
--
-- Paths are relative to src/ of the repository. A definition has the name of the function or member
-- that it models, without the prefix m_, and state is passed explicitly: an operation takes the record
-- of a component and returns the new one, Option or a result type where the code throws or has no
-- defined behaviour. What several threads do under a mutex or on an atomic is a sequence of steps.
--
-- Bounds: counters wrap at 2^64, the aggregate counter of a timer at 2^8, to_create of the watcher at
-- 2^32 with the conversion to int. Sums of a timer's samples are not bounded. A loop is structural
-- recursion; the search for a timer's bin has the number of bins as fuel, and it stops there by its
-- own condition. print_table runs on fuel, which is enough when it exceeds the levels left below a
-- limit. Doubles are a type with operations (a meter) or a ratio (a timer's average); the times of
-- a timer are doubles that are not negative, as numbers of a unit of which some number makes 1 ns.
--
-- Parameters stand for what the repository does not contain: Boost's split iterator for the cookies,
-- the header containers of Boost.Http and nghttp2, the answers of the file system and of sockets, what
-- nghttp2 and OpenSSL return and call back, the result of a Lua call, whether luaL_newstate, a script
-- or a fiber fails, what a traversal of a Lua table finds, and what dlopen finds in a file.
--
-- Not modelled: the options and the program's start, which are calls of Boost.Program_options and of
-- the system, the text output of the metrics and the connection to graphite, the functions that sleep,
-- the base64 library, which consists of Boost's iterators, the scheduler of the fibers and the adapted
-- code of src/fiber, and what the functions of Lua's own libraries do.
pub mod Prelude
pub mod Maps
pub mod Router
pub mod Cookies
pub mod Metrics
pub mod LuaStates
pub mod FileCache
pub mod Incoming
pub mod Server
pub mod Fibers
pub mod Resolver
pub mod Workers
pub mod Clients
pub mod Services
pub mod Hash
pub mod LuaUtils
pub mod Libraries
pub mod LuaMetric
pub mod Log
pub mod Texts
pub mod HttpClient
pub mod Setup
pub mod Http2Client
