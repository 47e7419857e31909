-- ===== src/Lib.antt =====
-- metricz-exporter: a Prometheus exporter for DayZ servers. Game servers push their metrics over
-- HTTP, in one request or in numbered chunks with a commit; the exporter validates and stores them
-- per instance and hands them to Prometheus, until they are stale.
--
-- The program's parts and the files that model them:
--
--   Storage           internal/storage/storage.go, errors.go: the two stores and the updates
--   Storage/Staging   internal/storage/staging.go: AppendToStaging, RetrieveStaging;
--                     Storage/Staging/Spec: the uploads that it keeps, without counters and order
--   Storage/Gc        internal/storage/gc.go: cleanupStaging, StartGarbageCollector
--   Storage/Collector internal/storage/collector.go: Describe, Collect
--   Storage/History   sequences of calls of the storage's methods
--   Storage/Uploads   an upload in such a sequence, and the sequences as the specification's
--   Storage/Owned     which instance the stored metrics name
--   Parser            internal/parser/parser.go: ParseAndValidate, getLabelHash
--   Config            internal/config/file.go: the configuration's types and validate
--   Config/Load       internal/config/file.go: LoadConfig
--   Config/Files      internal/config/cli.go: the configuration's file
--   Config/Cli        internal/config/cli.go: ParseFlags
--   Config/Durations  internal/config/unmarshal.go: the codec of durations
--   Server/Auth       internal/server/auth.go: the Basic Auth middleware
--   Server/Ingest     internal/server/ingest_single.go, ingest_chunked.go: the handlers
--   Server/Status     internal/server/status.go: the public status and its cache
--   Server/Pages      internal/server/health.go, index.go: the probes and the index page
--   Server/Routes     internal/server/handler.go: the routes, and a request to the server
--   Server/Json       internal/server/middleware_json.go: the middleware, JSON bodies as text
--   Poller/Dto        internal/poller/dto.go: addGauge, addGaugeWithLabels
--   Poller/A2s        internal/poller/a2s.go: the query and its metrics;
--                     Poller/A2s/Readings: what is to be seen of an answer, written out from it
--   Poller/Rcon       internal/poller/rcon.go: the session and Poll
--   Poller/Players    internal/poller/rcon.go: the players' metrics
--   Poller/Manager    internal/poller/manager.go: NewManager, Start, the workers and their ticks
--   Geoip             internal/geoip/downloader.go: EnsureDB, downloadFile
--   Logging           internal/logger/logger.go: Setup
--   Tickers           the loops of gc.go and manager.go over a ticker and a context
--   Terminal          internal/service/terminal.go: colours and the title
--   Console           internal/service/console_windows.go, console_unix.go
--   Service           internal/service/service_windows.go, service_unix.go: the service
--   Main              cmd/metricz-exporter/main.go: main
--   Entrypoint        internal/entrypoint/main.go: Execute, runs of the whole server,
--                     uploads from their first request to the scrapes, A2S polls to the scrapes
--   FileSystem        the calls of package os that the files above make
--   Vars              internal/vars/vars.go: what a build says of itself
--   Metrics, Strconv  the metric families, ParseInt and %d, as the program uses them
--   Base              what the modules share: tests, lists, int64 arithmetic, Go's maps
--   Tests             concrete data, tests and examples
--
-- A method of the storage takes the state and returns the new one, by the name of the Go method in
-- snake case: `append_to_staging` is Storage.AppendToStaging. What time.Now() returns is an
-- argument. The mutexes make each method one step, so a concurrent run is a sequence of steps, as
-- Storage/History has it. A handler takes the request's parts and the state and returns the new
-- state and the response, of which `headers` are those that it sets itself. The ingest handlers
-- call the parser, and the storage with its result; they are the ways in which the outside reaches
-- the staging area.
--
-- Sizes and counters are integers with the wrap-around of int64 written out. Time and durations
-- are integers in nanoseconds, of which the saturation of Time.Sub is written out and the overflow
-- of Time.Add is not. A float64 is its bit pattern, and its arithmetic is a parameter. A Go map is
-- an association list, whose order stands for the order of `range`. A text is Unicode, so that
-- NewConstMetric's and the registry's refusal of label values that are not valid UTF-8 has no
-- counterpart: `valid` judges the description only. A text is compared, hashed and, by the JSON
-- middleware, written as its code points, which for ASCII are its bytes. sort.Slice is a stable
-- sort here, where the library leaves the order of equal names open. The loops of the code go over
-- finite lists. Only `format_digits` runs on fuel, which is one more than the number: enough,
-- since a number has fewer digits.
--
-- The calls that an RCon session makes on its connections are a list, newest first, in the
-- session's state; what a call answers is any function of the calls before it, so that a
-- connection may die at any time.
--
-- A goroutine's loop runs over the list of what it waits for: ticks, before each of which the
-- others may have changed the storage in any way, and the end of its context; where the list ends,
-- the loop waits on. The requests of the service manager are such a list too. A call of the
-- Windows API answers the same each time, until the standard files change.
--
-- A call of package os may fail at any point, by a function that says what fails, and a write that
-- fails may leave any part of its content. Other processes do not change the files meanwhile. In
-- Entrypoint/Runs a request, a tick or a collection is one step; that the handlers' single calls
-- of the storage may alternate with those of others is in Storage/History.
--
-- The parameters are the text format's decoder, xxhash, the BattlEye id of dzid, the floats, the
-- check of NewConstMetric and that of label names, json.Marshal, the tokens that encoding/json
-- reads, the clients of A2S and RCon and the parser of the players' list, time.Parse, http.Get,
-- the parser of flags, time.ParseDuration and Duration.String, the YAML decoder and the library of
-- defaults, the levels of zerolog, the Windows API and the service manager, http.Server, the
-- registry of Prometheus, the GeoIP reader, and the router of chi, of which only is assumed that
-- the route that it finds is one of the table.
--
-- Not modelled: what is logged; chi's own middlewares, and of the access log all but its level.
pub mod Base
pub mod Metrics
pub mod Storage
pub mod Strconv
pub mod Parser
pub mod FileSystem
pub mod Geoip
pub mod Logging
pub mod Console
pub mod Service
pub mod Main
pub mod Terminal
pub mod Tickers
pub mod Entrypoint
pub mod Vars
pub mod Config
pub mod Poller
pub mod Server
pub mod Tests
