-- ===== src/Lib.antt =====
-- Verification of fumemory: the coordination core of the memory service, that is its locks, its
-- lanes, the agents' memory blocks, the ledgers and summaries of events, and the paths by which
-- files and queries reach its pages.
--
-- The parts, and the files that model them:
-- - Locks: memu/neighborhood_lock.py. `Record` and `Registry` are `LockRecord` and the protocol
--   `LockRegistry` with the laws that its clients use. `Sqlite` and `Markdown` are the two
--   registries, each with its laws (`Laws`, and `Markdown/Attempts`). `Neighborhood` is the context
--   manager `NeighborhoodLock` over any registry; between its calls other agents may make any
--   calls (`Calls`). `Fencing` says what the tokens promise over any registry.
-- - Nats: the key-value buckets of nats-py. The library is not part of the repository, so its calls
--   are a parameter, `KeyValue`, whose laws are its documented behaviour; `Memory` is an instance.
-- - Hardening: memu/hardening.py, the subject check that lanes are named by.
-- - Lanes: memu/lane_lock.py and the models of memu/swarm_models.py. `Acquire` is `_acquire_lane`,
--   one step for each await; `Execution` has the other methods of `LaneLockedExecution`, and
--   `Orphans` a round of `orphan_detector_loop`.
-- - CoreMemory: memu/core_memory.py, and the firewall of memu/memory_agent.py (`Texts`). A call may
--   find the bucket changed by other clients after each await.
-- - Ledger: memu/bridge_ledger.py, the projection of events to tasks and its views.
-- - Projection: memu/projection.py, the projection of the same events from the database's rows.
-- - Tasks: memu/task_orchestrator.py, the buffers of events and the summaries of the tasks.
-- - Router: memu/parallel_worker_router.py, the workers and the subtasks that they are given;
--   `Selection` and `Limits` are about the choice of a worker, `Batches` models the batches.
-- - Isolation: memu/context_isolation.py, what agents hand to one another.
-- - Archival: memu/archival_pager.py, which moves paragraphs between a memory block and the
--   database. It calls the operations of CoreMemory.
-- - Ingest: memu/ingest/resolve.py. `Names` has the dotted names and slugs, `Imports` the table of
--   aliases, `Resolve` the stages of `LinkResolver`. `Filters` and `Walk` are
--   memu/ingest/filters.py, the ignore rules and the walk over the files.
-- - Rlm: memu/rlm. `Orchestrator` has the recursive queries and their default callables, `Fusion`
--   the fusion of ranked lists of the hybrid retriever.
-- - Storage: memu/storage. `Node` has the records of base.py, `Sqlite` the tables of
--   sqlite_backend.py and `Markdown` the files of markdown_backend.py.
-- - Wiki: `Sync` is memu/wiki/sync.py, the polls of the vault, the debouncer and the daemon's
--   handler. `SlugRegistry` is memu/wiki/slug_registry.py over the SQLite store, and `Frontmatter`
--   memu/wiki/frontmatter.py, a page as one text.
-- - Cluster: memu/cluster.py, the two NATS nodes and the failover between them.
-- - Profiler: memu/implicit_profiler.py, the buffers of chat messages and the merge of profiles.
-- - SupplyChain: memu/supply_chain.py, the items with a long lead time.
-- - Warden: memu/warden_runtime.py, the watchdog over the gateways and the start of replacements.
--
-- State is passed explicitly: an operation takes the database, the files, the buckets or the ledger
-- and returns them with its answer; an exception is an answer. A time is a number (microseconds for
-- lanes), and a text of a time stands for the time that it spells.
--
-- Bounds: an acquisition of a lane is run for five awaits, after which every attempt has ended. The
-- retry loops of the memory blocks have the five attempts of the source. `solve` runs on fuel, of
-- which `max_depth - depth + 1` levels are enough. No other fuel is used.
--
-- A JSON value is read as the type that the code expects of it: a null where a text is read, and
-- the TypeError or the validation error of a value of another type, are not modelled. SQLite answers
-- in the order of the index that it uses for a query: the links of a node come by target and type.
-- A lead time of SupplyChain stands by its place in the order of the floats.
--
-- Not modelled: SQL beyond the tables of the lock registry and of the index (elsewhere the rows that
-- a query returns, and whether an INSERT succeeds, are parameters), the searches of the stores, the
-- parsers, the retrievers and the embeddings, docker and the policy engine (parameters),
-- sockets and HTTP, the tokenizer (a parameter), failures of the connection to NATS, the scheduling
-- of background tasks (one round of each is a function), the modes of the router that wait between
-- dispatches, and `request_rpc` and `release_all_my_leases` of memu/lane_lock.py.
pub mod Archival
pub mod Base
pub mod Cluster
pub mod CoreMemory
pub mod Hardening
pub mod Ingest
pub mod Isolation
pub mod Lanes
pub mod Ledger
pub mod Locks
pub mod Nats
pub mod Profiler
pub mod Projection
pub mod Rlm
pub mod Router
pub mod Storage
pub mod SupplyChain
pub mod Tasks
pub mod Warden
pub mod Wiki
