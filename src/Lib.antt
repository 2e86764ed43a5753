-- ===== src/Lib.antt =====
-- The agent, the ingestion service and the services that read the store of kube-cost: how observations
-- of a Kubernetes cluster get from an agent's memory buffer through a stream, a bounded queue and a
-- worker into the store, and how the query, export and workflow services answer requests from it.
--
-- An agent collects observations, gives each a sequence number in a bounded buffer, and sends runs of
-- consecutive numbers as batches. The service checks a batch, compares it with the watermark of the
-- cluster, archives the new part, puts it into a queue, waits for the persistence worker, saves a
-- checkpoint, and acknowledges the watermark, up to which the agent drops its observations.
--
-- The HTTP services take a request for a tenant when the gateway's signature and secret are right. The
-- query service answers from ClickHouse, page by page with a cursor, or by a job that runs in the
-- background and stays in a bounded store; the export service keeps its jobs in the same way, and the
-- workflow service moves recommendations from status to status.
--
-- Files, and the code that they model:
--   Prelude, Prelude/*   names of the library and lemmas on lists, maps and tests that all parts share
--   Wire, Wire/Objects   the messages of proto/cost/v1/agent that the code reads, and the record
--                        `Codec` of functions from other packages (protobuf, SHA-256, hex, fmt)
--   Inventory            agent/inventory/event.go: `Validate` and `Fingerprint` of an event
--   Inventory/*          agent/inventory/cache.go and collector.go: `publishDelta`, the events and containers
--                        of a pod; Mirror and Pods are theorems
--   Buffer, Buffer/*     agent/transport/buffer.go: `Publish`, `Batch`, `Acknowledge`, `Close`; one hold of
--                        the mutex is one function, and Buffer/Acknowledged runs sequences of them
--   Client, Client/*     agent/transport/client.go: the batch that `connect` sends, the handshake,
--                        `awaitAcknowledgement`, the wait between connections
--   Server, Server/*     services/ingestion/server/server.go: Checks is `validateBatch` and what it calls,
--                        Suffix is `suffixAfter`, Batch is `handleBatch`, Journal a sequence of its calls,
--                        Session is `Connect` up to its loop, `acquire` and `release`, and
--                        Session/Streams any number of streams at once,
--                        Checkpoint is `Load` and `Save` of checkpoint.go
--   Queue, Queue/*       services/ingestion/queue/queue.go: `TryEnqueue`, `Acquire`, `Dequeue`, `Commit` and
--                        `Retry` under the mutex; Queue/World is the queue with any number of blocked
--                        callers and leases under an arbitrary interleaving, in which the channels of a
--                        commit are closed by a step of their own, before the one under the mutex
--   Worker, Worker/*     services/ingestion/persistence/worker.go: the loop of `Run` as a state machine
--   Repository/*         services/ingestion/persistence/repository.go: the rows of all kinds of observations, and
--                        the grouping by table of `Persist`
--   Policy, Policy/*     services/policy/store.go: creation and activation of policy versions
--   Http                 services/query/server.go: `writeJSON` and `writeProblem`, as the two ends of a handler
--   Gateway, Gateway/*   internal/gatewayauth/gatewayauth.go, and `trustedGateway` and
--                        `authenticatedTenant`, of which each service has a copy
--   Query, Query/*       services/query: Request is `analyticsQuery` and `asyncAnalyticsQuery`, Sql and
--                        Statements are the statements of repository.go, Rows and Repository its methods,
--                        Cursors is `paginate` and the cursors, Quality is `summarizeDataQuality`,
--                        Results and Handlers are the handlers, Config is the set-up of the
--                        connection; the others are theorems
--   Jobs, Jobs/*         services/query/query_jobs.go and services/export: the store of jobs, which both
--                        have, Jobs/Query with the run of a query job, Jobs/Export; the others are theorems
--   Workflow, Workflow/* services/workflow: `ApplyCommand` and its handlers; Rows is what is inserted,
--                        Overlap has the calls that read before another inserts
--   Audit, Audit/*       services/audit: the log of events and its handlers
--   Delivery, Delivery/* agent and service together, one batch and its answer per round; between rounds
--                        nothing is published, and the worker takes nothing from the queue: what it does
--                        for the batch of a round is the result `notified` of the wait
--   Tests, Tests/*       concrete inputs
--
-- Conventions. A number of the source is a native natural number; a uint64 wraps at 2 ^ 64 where it
-- is computed (`u64_mod`), and a theorem that needs the absence of a wrap says so. Counts of Go's
-- type int that are never negative are natural numbers. A Go error is a constructor of a data type or
-- an Option. What the code calls outside itself enters as a value: the results of sends, archive,
-- checkpoint store and database as Booleans (`Calls`, `PersistResult`, `Outside`), the clock as a number, protobuf and
-- SHA-256 as functions in `Codec`, of which
-- nothing is assumed unless a theorem says so; `Library` has those of the repository. In the HTTP
-- services `Gateway.Library` and `Query.Codecs` hold the functions of Go's packages and of shopspring/decimal, `Connection`
-- is the database as a function of statement and arguments, IDs that are drawn at random are arguments,
-- a request is served at one instant, and the text of a wrapped error is not kept. No loop of the source
-- has fuel: every one is a recursion on a list or a number, and an endless loop is a step function, run on
-- a list of events. The caller of `read_pages` is not of the source; its fuel is the number of pages it
-- asks for, and one more than there are rows is enough.
--
-- Times are natural numbers of nanoseconds since 1970, so requests and rows with earlier times are not
-- represented. `Seconds` of a duration, a float64, is taken for exact. The lists of observations hold
-- no nil, since what is decoded from the wire has none: the error that `mapObservation` returns for one
-- is left out.
--
-- Not modelled: gRPC and TLS set-up, logging, goroutine scheduling inside one hold of a mutex, the
-- database, the builders of events from the types of Kubernetes, the services of allocation, pricing,
-- recommendations, integrations, identity, tenants and cluster registry, and the set-up of the processes.
pub mod Prelude
pub mod Wire
pub mod Queue
pub mod Worker
pub mod Inventory
pub mod Buffer
pub mod Server
pub mod Client
pub mod Delivery
pub mod Repository
pub mod Policy
pub mod Http
pub mod Gateway
pub mod Query
pub mod Jobs
pub mod Workflow
pub mod Audit
mod Tests
