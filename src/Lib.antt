-- ===== src/Lib.antt =====
-- The metrics service rtmetrics: agents collect runtime and system metrics and send them in batches;
-- a server stores counters and gauges, answers queries over HTTP, audits the writes and keeps a
-- snapshot of its store on disk, or keeps it in PostgreSQL. This library models the code under
-- internal/, the commands cmd/server and cmd/agent, and the generator cmd/reset.
--
-- The parts, and the files that model them (paths from the repository's root):
--   * internal/model: Model. A metric is a record; a nil pointer is `none`. A float64 is its bit
--     pattern, since gauges are stored and copied only.
--   * internal/repository, internal/service: Repository, Service. A method takes the state and
--     returns its result with the new state. Repository/Contract states what a store promises over an
--     abstract view, two maps; `Implements` is the refinement between a store and its view, which the
--     handlers' clients take as their interface. Repository/Fallible has the same promise for a store
--     whose calls can fail.
--   * internal/storage/mem_storage.go: Storage, with Storage/Refinement (the contract) and
--     Storage/History (the content as a function of the calls made). A method holds the mutex from its
--     start to its end, so that it is one step.
--   * internal/storage/file.go: Storage/File. A disk is a map from paths to contents; `Calls` says
--     which system calls succeed; the JSON codec and the temporary name are parameters.
--   * internal/storage/postgres: Storage/Postgres over the calls of a driver, SqlDb in Postgres/Driver, which
--     is a parameter. Postgres/Behaviour states what PostgreSQL documents of these calls, `lossy` for a
--     network that can lose the reply to a write; the statements are data with the fields that tell the
--     queries apart. Postgres/Retried is retry.Do on such calls, Postgres/Transaction an attempt of
--     SaveBatch, Postgres/Scanned and Postgres/Listing the scans, and Postgres/Refinement,
--     Postgres/LostReplies and Postgres/Equivalence the results. Calls of one client are modelled: other
--     clients of the table do not write in between.
--   * internal/database: Database, and Database/Bounds.
--   * internal/server: Server (RestoreIfNeeded, SaveSnapshot, SyncSaveRepo), Server/Recovery,
--     Server/Sync, Server/Overlap (calls of SyncSaveRepo that overlap, step by step), Server/Periodic (RunPeriodicSave beside other writers, as a schedule of events), and
--     Server/Shutdown (the end of run in cmd/server/main.go).
--   * cmd/server/main.go, run up to the HTTP server: Server/Startup, with Startup/Errors. The
--     store behind the interface is one of four.
--   * internal/audit: Audit and Audit/Delivery. The channel is a list, the worker's calls of Observe a
--     log; handlers and worker interleave as a list of actions. Audit/Observers has the file and the
--     HTTP observer, and Observers/Log reads the file back.
--   * internal/retry: Retry and Retry/Attempts.
--   * internal/handler: Http (requests, and the calls that a handler makes of its ResponseWriter, in
--     order), Api (the state behind a request, and what comes from outside), Handler with a module for
--     each handler, and for proofs Handler/ReadBack, Handler/Refusals, Handler/Batches, Handler/Json
--     and Handler/JsonReads.
--   * internal/config: Config, with Config/Parse for the order of the sources of the server's settings. The
--     command line parsed by the package flag, the JSON file decoded and env.Parse are parameters.
--   * internal/agent: Agent/Collector (the metrics of a report), Agent/Chunk (chunkBatch), Agent/Runner
--     (the runner's state and its reports), Agent/Batch (what a report consists of), Agent/Client (the HTTP
--     client over a transport), Agent/Pool (the worker pool as it runs: a step is what one goroutine does to
--     the channel or the sender), Pool/Delivery and Pool/Stop. Agent/Run has the three loops of Run, as the
--     sequence of their rounds, with Run/Deltas and Run/Counted.
--   * cmd/agent/main.go, run up to Runner.Run: Agent/Startup, with the agent's settings in Config/Agent.
--   * cmd/reset/generate.go, the statements of a generated method: Reset, with what they do in Go in
--     Reset/Semantics, where code that does not compile has no result, the types of values in Reset/Fits, and Reset/Fields, Reset/Arrays, Reset/Methods.
--   * internal/hash, internal/rsaenc: Crypto, with HMAC, RSA-OAEP, AES-GCM and hexadecimal as arguments.
--   * internal/middleware, internal/realip: Middleware, functions on handlers.
--   * cmd/server/main.go, createRouter: Router, with Router/Chain and Router/Delivery (the request
--     of a batch through the layers), Router/Sending (SendBatch on a connection to the router) and Router/Guards (the trusted subnet).
--   * internal/proto, internal/grpcmetrics, internal/agent/grpc.go: Proto, Grpc, with
--     Grpc/Delivery (SendBatch on a connection to the server) and Grpc/Reports (the chunks of a report).
--   * Base has what these share: Boolean tests, lists over the native numbers, Go's int64 as a bit
--     pattern below 2 ^ 64, strconv on integers, and Go's maps. A map is abstract but for its laws, and
--     a loop over it takes the order that the runtime picks as an argument.
--   * Examples has the theorems at concrete inputs.
--
-- Bounds and fuel. int64 arithmetic wraps, as in Go. The digit loop of FormatInt has a fuel of twenty
-- digits, enough below 2 ^ 64 since 10 ^ 20 is larger. The loop of chunkBatch has the length of the batch as
-- its fuel: each round moves at least one metric on.
--
-- Not modelled: logging; the shutdown of the listeners; the
-- tickers of the agent's runner; keys and certificates in files; generated code; the files that cmd/reset
-- reads and writes, and cmd/staticlint.
pub mod Base
pub mod Model
pub mod Repository
pub mod Storage
pub mod Service
pub mod Audit
pub mod Retry
pub mod Agent
pub mod Http
pub mod Api
pub mod Handler
pub mod Config
pub mod Server
pub mod Proto
pub mod Crypto
pub mod Middleware
pub mod Router
pub mod Grpc
pub mod Database
pub mod Reset
mod Examples
