-- ===== src/Lib.antt =====
-- Cell router: a data plane that routes HTTP requests to cells by a routing key, guards them with
-- concurrency limits, body limits, circuit breakers and health checks, and takes its configuration from a
-- file or from a control plane.
--
-- How the parts interact. `ServeHTTP` (internal/proxy/handler.go) asks the router
-- (internal/routing/router.go) for a decision, which reads a configuration through the interface
-- ConfigProvider; the loader (internal/config/loader.go) implements it over the active configuration
-- (internal/config/config.go). The handler then takes a slot of the placement
-- (internal/limits/manager.go), checks the body's size, asks the placement's breaker
-- (internal/circuit/breaker.go) and the health checker (internal/health/checker.go), may send the request
-- to a fallback or the default placement instead, exchanges it with the upstream, records the outcome at
-- the breaker and gives the slot back; the request that it sends is built from the client's, and the
-- answer gets headers that explain the decision. The router's process (cmd/router/main.go) loads a
-- configuration, then reloads its file or follows a control plane. The control plane
-- (cmd/control-plane/main.go, internal/controlplane/server.go) loads its configuration with the same
-- loader and writes snapshots of it (internal/protocol/messages.go) to the data planes' clients
-- (internal/dataplane/client.go), which apply them to their own loaders. A demo cell (cmd/cell/main.go) is
-- an upstream that echoes its request.
--
-- Files. A function keeps its source name in snake_case: GetBreaker is get_breaker.
--   Prelude       helpers: Boolean tests, signed integers, maps as association lists, results with panics
--   Http          Go's http.Header as the program uses it, and what it reads of a request
--   Logging       internal/logging/logger.go, the entry of a line
--   Circuit       internal/circuit/breaker.go
--     Diagram     the edges of the state machine, and what holds in each state
--     Counting    when a closed breaker opens
--     Window      the time an open breaker stays open, and what comes after
--     Registry    GetBreaker
--   Limits        internal/limits/manager.go, the manager; Limits.Channel its semaphore
--     Agreement   semaphores against the configuration
--     Slots       requests in flight, over all interleavings
--     Reconfigure SetConfig while a request is in flight
--     Size        ValidateRequestBodySize
--   Config        internal/config/config.go; Config.Validity says what a valid configuration is
--     Order       configurations up to the order of their maps; Order.Validate is Validate over them
--   Routing       internal/routing/router.go; Decision describes Route, Served is Route over a valid configuration
--   Loader        internal/config/loader.go
--     LastKnownGood  the reload loop
--     Races       a file that changes between two reads
--     Unroutable  configurations that the loader serves badly
--   Health        internal/health/checker.go; Store is the heap of endpoint objects, Checks the verdicts
--     Stopping    Stop beside the goroutines of the checks; Ending is how these end, Returns how Stop does
--   Proxy         internal/proxy/handler.go: the handler and NewHandler
--     Startup     what NewHandler builds, with Intervals for the interval of a health check
--     Configured  the configuration that NewHandler keeps; Checkers is the health checkers that it starts
--     Exchange    requests, responses and log entries of ServeHTTP
--     Rerouting   the two failover blocks of ServeHTTP; Hops says where a request can end, Gone where one has
--       gone under any configuration
--     Serve       ServeHTTP, cut in two where it waits for the upstream
--       Slots     the slots that the two parts take and give back
--       Traffic   any number of requests, interleaved
--       Outcome   what a forwarded request has passed, and whom its outcome is told
--       Unguarded failover against the guards of the placement where it ends
--       Frozen    the handler's configuration and health checkers over a request
--       Guards    what a request has that has passed all guards
--       Refusals  the requests that the router answers itself; Answers is what becomes of any request
--       Told      the log line of a request against what its client gets
--       Breakers  what a request does to the breakers; Streaks is the failures that open one, among any
--         traffic, and Trips what becomes of the requests after that
--     Forward     the upstream request and the headers of the answer; Headers gives their values,
--       and Target where the request goes
--     Logs        the log entries of ServeHTTP; Lines is what they say
--   Cell          cmd/cell/main.go; Echoes is a request that comes through a router
--   Debug         internal/debug/handler.go
--   Protocol      internal/protocol/messages.go
--   DataPlane     internal/dataplane/client.go
--     Backoff     the waits between dials
--     Snapshots   what the control plane's messages do to the configuration
--     Stopping    Stop beside the goroutine of the connection loop
--   ControlPlane  internal/controlplane/server.go
--     Received    what a data plane makes of the messages that were written to it
--     Connections the set of clients, in the course of connections
--     Start       cmd/control-plane/main.go, its start; Endpoints what it answers, and its end
--     Fleet       a control plane and a data plane side by side; Serves is what the latter routes by,
--       Newest what it has once it has read all, CatchesUp how it comes to the version that is watched, Stale
--       a first snapshot that a broadcast overtakes
--   Process       cmd/router/main.go
--     Startup     a router that takes its configuration from a file
--     Answers     what becomes of the requests to a router that has started
--     Stale       the configuration by which a request fails over
--     Shutdown    the deferred stops at the end of main
--     Torn        a reload in the middle of a call of Route
--     Dispatch    the handlers that the mux chooses among, and what /debug/config tells; Source says where
--       the active configuration comes from
-- The Samples and Tests modules hold concrete inputs.
--
-- Conventions. Numbers are natural numbers; `int`, `int64` and time.Duration fields that may be negative
-- are integers; a uint32 wraps at 2 ^ 32. A clock reading is an argument, in nanoseconds. A pointer that
-- may be nil is an Option. A map is an association list, read by its first entry for a key; a range over
-- it visits the list in order, and what is proved holds for every list. A panic is `none` or `panic`, a
-- receive that blocks is `none`. An operation under a mutex is one step. The loader's atomic stores,
-- of a configuration, its source, its checksum and its time, follow each other within one step of a
-- process; a load between them is not modelled. Each load of Route, of /debug/config and of a tick of
-- the watch has a loader of its own. Requests interleave where ServeHTTP waits for its upstream. There
-- is no fuel: every loop of the source runs over a map, a list of ticks or a list of calls.
--
-- Outside the model. Go's standard library enters as the record Config.Library (time.ParseDuration,
-- url.Parse, json.Unmarshal, SHA-256), as Proxy.Forward.Net (net.SplitHostPort,
-- http.NewRequestWithContext), as DataPlane.Codec and ControlPlane.Decoder (JSON), or as the outcome of an
-- exchange (HTTP, file reads, websockets); http.ServeMux enters as Process.Dispatch.Mux, its choice of a
-- pattern. Header keys stand in their canonical form, in which net/http puts what it reads. Not modelled: the random bytes of a request id, the encoding of JSON answers and log
-- lines, the plain log lines of log.Printf, bodies and their streaming, the settings of transports and
-- servers, listening, signals and server.Shutdown of the programs under cmd.
pub mod Prelude
pub mod Http
pub mod Logging
pub mod Circuit
pub mod Limits
pub mod Config
pub mod Routing
pub mod Loader
pub mod Health
pub mod Proxy
pub mod Cell
pub mod Debug
pub mod Protocol
pub mod DataPlane
pub mod ControlPlane
pub mod Process
