-- ===== src/Lib.antt =====
-- AuditeDB: worlds of bytes under a tamper-evident audit chain, and the engine around them.
--
-- A world is a named body with metadata. A persistent world is one SQLite file (core/src/world.rs,
-- core/src/world_schema.rs) whose `events` table is a chain: every row signs, under the engine's key,
-- its own fields and the tag of the row before it (core/src/audit.rs). A memory world lives in a map
-- with a quota (core/src/store.rs). Requests pass a credential check (core/src/auth.rs), a gate
-- (core/src/world_ops.rs, core/src/delete_ops.rs) and preconditions (core/src/etag.rs); a delete is
-- recorded before and after in the delete ledger, a chain of its own (core/src/ledger.rs). Bytes and
-- events are counted against quotas (core/src/state.rs, core/src/state/storage_reservation.rs), and
-- a shutdown waits for the file operations (core/src/state.rs).
--
-- The files, and the code each is about. A definition has the name of the function or type it models;
-- a helper beside it names a part of that function.
--   Prelude: the shared names, and lemmas on lists, bytes, decimal digits, UTF-8, association lists
--     and results.
--   Timeline: body hashes, generations and sequence numbers (core/src/timeline.rs,
--     core/src/world_generation.rs). `Crypto` holds the two functions of the hash library: SHA-256 and
--     HMAC-SHA-256, each to hexadecimal digits.
--   Audit.Events, Audit.Frame, Audit.Headers: kinds and rows of events, what is signed and how it is
--     laid out in bytes, and the headers that bind a delete to its subject (core/src/event.rs,
--     core/src/audit.rs, core/src/audit/headers.rs).
--   Audit.Retention, Audit.Bodies: the tables of a world as the record `WorldDb`, the retained bodies,
--     and their checks (core/src/world_schema.rs, core/src/audit/retention.rs,
--     core/src/audit/live_body.rs).
--   Audit.Verify, Audit.Walk, Audit.Access: one event, the walk over all of them, and the reads that
--     verify (core/src/audit/verifier.rs, core/src/audit.rs, core/src/chain_stamp.rs).
--   Audit.Append: the append of a signed row (core/src/audit/append.rs).
--   MemoryStore: the map of memory worlds with its accounting (core/src/store.rs).
--   Storage: reservations against the counters (core/src/state/storage_reservation.rs,
--     core/src/state.rs).
--   FileOps: the gate of file operations, as a step relation of its threads (core/src/state.rs).
--   Auth: tokens, tiers and gates (core/src/auth.rs, core/src/lib.rs, core/src/world_ops.rs,
--     core/src/delete_ops.rs).
--   WorldPath: accepted names (core/src/path.rs, core/src/engine_types.rs) and the canonical form of a
--     request path (bin/src/server/path.rs).
--   Etag: matchers and preconditions (core/src/etag.rs).
--   Ledger, Delete: the ledger's writer and the whole of a delete (core/src/ledger.rs,
--     core/src/delete_ops.rs).
--   Subscription: durable event ids and patterns (core/src/subscription_event_id.rs,
--     core/src/subscription_cursor.rs, core/src/event.rs). The percent_encoding package's decoder is
--     a parameter, with what its documentation says of it in `PercentDecoding`.
--   Http: the ranges of a body (bin/src/server/http/range.rs).
--   Cas: the bodies that a world retains, their pruning and its estimates (core/src/world/cas.rs).
--   WorldStore: the audited transactions on a world's file, with the gate before them, and its reads
--     (core/src/world.rs, core/src/audit.rs, core/src/state.rs).
--   WorldOps: replacing and appending writes, with the part of the engine's state that they change
--     (core/src/world_ops.rs, core/src/state.rs).
--   EventLog: the log of recent changes and the cache of writing connections (core/src/state.rs).
--   ReadCache: the slots of read connections, as a step relation of the threads that read, evict,
--     delete and write (core/src/read_cache.rs, core/src/read_cache/state_machine.rs).
--   StorageClass: the classes of failures of SQLite (core/src/storage_class.rs).
--   Tests: databases, worlds and requests at which the theorems are applied.
--
-- How state and failure are modelled. Strings are lists of bytes. A table is the list of its rows in
-- the order of its keys, and a query is a function on it; a transaction that fails returns no new
-- tables, so nothing it wrote is kept. A mutex makes an operation one step; where threads meet without
-- one, they are a step relation. What the file system and the clock answer is an argument
-- (`Attempt`, `World`, the current time). An `i64` or a `usize` is checked, saturated or clamped
-- where the code does so. A write holds the lock of its world from its preconditions to its notices
-- and is one step on the state of the engine. Two definitions have fuel: the printing of decimals takes
-- one round for each digit and is given as many rounds as the number, which are at least its digits;
-- the eviction of connections removes one each round and is given as many rounds as there are
-- connections.
--
-- Not modelled: SQL text and SQLite itself, files and locks on disk (so neither a world file that a
-- failed opening leaves half made), the asynchronous facade (core/src/engine.rs,
-- core/src/engine_ops.rs), the sampling and the metrics of the
-- read cache, the streams of subscriptions, dereferencing of timeline
-- addresses, reads of worlds by request (core/src/world_read_ops.rs), the HTTP adapter
-- (bin/src/server) but for its ranges, the bindings (ffi) and the Python client (sdk).
pub mod Prelude
pub mod Auth
pub mod WorldPath
pub mod MemoryStore
pub mod Timeline
pub mod Audit
pub mod Cas
pub mod WorldStore
pub mod WorldOps
pub mod EventLog
pub mod Storage
pub mod FileOps
pub mod Etag
pub mod Ledger
pub mod Delete
pub mod StorageClass
pub mod ReadCache
pub mod Subscription
pub mod Http
pub mod Tests
