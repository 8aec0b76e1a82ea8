-- ===== src/Lib.antt =====
-- GeoTagger: the API that locates IP addresses for authenticated callers and publishes an audit
-- event for each request, the worker that carries the events to ClickHouse, and the store of the
-- credentials that administrators manage through the admin API.
--
-- A request passes the middleware of internal/httpapi, is authenticated by the verifier of
-- internal/auth, is looked up, and is answered once its audit event was handed to the stream of
-- internal/natsaudit. internal/worker takes the events from the stream in batches and inserts them
-- into ClickHouse. The verifier holds the static keys of API_KEYS, as cmd/keygen prints them, and
-- the managed keys of internal/keystore, which internal/adminhttp creates, rotates and revokes. The
-- lookup reads the two databases of internal/maxmindgeo, which are reloaded when their files change,
-- and cmd/mmdb-updater puts new ones in place.
--
--   Prelude    shared names, tests on numbers, lists, the result type
--   Text       strings of bytes and what the code uses of packages strings, path/filepath,
--              encoding/hex and encoding/base64; maps with string keys
--   Auth       internal/auth/tokens.go: new_verifier, replace_managed, verify_authorization and
--              managed_counts are NewVerifier, ReplaceManaged, VerifyAuthorization and ManagedCounts
--   Keygen     cmd/keygen/main.go
--   KeyStore   internal/keystore/nats.go: create, rotate and revoke over the calls of
--              nats.KeyValue in Operations, list_records in Listing, open_store in Opening, and in
--              Sync the goroutine of StartVerifierSync
--   AdminHttp  internal/adminhttp/server.go: Server has the state and the monad, Actions, Handlers
--              and Routes the functions of the file; Checks, Effects, Mutations, Guarded and
--              Outcomes show what a request can change, Refreshed, Promises, Issues and Tokens what
--              its answer means for the verifier
--   Net        net/netip.Addr as far as internal/httpapi uses it, and publicTarget
--   Audit, Geo internal/audit/event.go and internal/geo/types.go
--   Metrics    internal/httpapi/metrics.go: the histograms
--   HttpApi    internal/httpapi/server.go: Server has the state and the monad, ClientIp, Actions,
--              Handlers and Routes the functions of the file, named like them; the other children
--              prove what a request leaves behind
--   MaxMindGeo internal/maxmindgeo/maxmind.go: Files has the state, Reload and Lookup the functions
--              of the file; Snapshot, Exchanges, Reloads and Watching prove what a reload keeps
--   Config     internal/config/config.go: LoadAPI and LoadWorker in Load; Started shows what the
--              worker does with its settings
--   Updater    cmd/mmdb-updater/main.go: Disk has the state, Download and Bundle the functions of the
--              file; Steps, Staged and Switched prove what an update leaves
--   NatsAudit  internal/natsaudit/nats.go: ensureAuditStream over the calls of JetStreamContext
--   Worker     internal/worker/worker.go, with the sink of clickhouse.go in Worker/ClickHouse
--   Examples   the theorems at concrete inputs
--
-- State is passed explicitly: a handler of the API is a function of the world, a method of the key
-- store a function of the bucket, and an event of the worker a step. What the repository calls and
-- does not contain is an argument: hashes, JSON, the clock, the random source, the parsing of
-- addresses and durations, the files and the readers of the MaxMind library, the verification of
-- access tokens, NATS and the HTTP client. The API takes the lookup, too, as an argument. Where a
-- theorem relies on such a call, its documented behaviour is a hypothesis.
--
-- Instants are natural numbers, durations too where no sign matters. Counters are 64 bits wide and
-- wrap. The limit of a body is an int64, and one more than the greatest is negative; the capacity of
-- the worker's channel is an int of 64 bits, and wraps. No definition needs fuel: recursion is on
-- lists, on the four attempts of a snapshot, and on the number of ticks of Watch. TrimSpace counts its
-- rounds by the length of the string.
--
-- The model reads the clock once for each Authorization header, also where the code does not. An
-- insert of the worker knows whether its context is done; contexts and timeouts are otherwise not
-- modelled, nor are the checks of the admin API's access tokens, the updater's mode for a single
-- edition, the metrics page and the wiring of the processes. Each call of the admin API on the
-- bucket, and each file system call of a reload, is a step of its own; what other processes do
-- meanwhile is in the answers of the calls, but the theorems on issued tokens suppose that no
-- other process writes.
pub mod Prelude
pub mod Text
pub mod Auth
pub mod Keygen
pub mod Net
pub mod Audit
pub mod Geo
pub mod Metrics
pub mod HttpApi
pub mod Worker
pub mod NatsAudit
pub mod KeyStore
pub mod AdminHttp
pub mod MaxMindGeo
pub mod Config
pub mod Updater
pub mod Examples
