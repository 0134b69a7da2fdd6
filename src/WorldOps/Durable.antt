-- ===== src/WorldOps/Durable.antt =====
-- core/src/world_ops.rs and core/src/state.rs: a write to a durable world, from its reservations to
-- its settlement.
use audite_db.Prelude.{
  ℕ, ◌-◌, Option, none, some, List, [], Result, ok, err, length, is_some, ◌==◌, if◌then◌else◌,
}
use audite_db.Prelude.Assoc.{lookup, insert}
use audite_db.Prelude.Text.{Bytes, codes}
use audite_db.Audit.Retention.{StorageError, execute_returned_results, WorldDb}
use audite_db.Cas.{WriteAuditError, audit, sqlite, cas_body_mismatch, storage_invariant}
use audite_db.Storage.{
  Reservation, reserve_storage_after_prune, commit_reservation, drop_reservation, adjust_counter,
  rollback_storage_counter, reserve_audit_events, commit_one, commit_two, drop_events,
}
use audite_db.EventLog.{evict_if_needed}
use audite_db.WorldStore.{
  WorldFile, OpenedWorldKind, created, existing, WriteAuditResult, AuditVerificationCache,
}
use audite_db.WorldOps.{
  read_op, write_audit_op, WriteError, not_found, quota_exceeded, cas_mismatch, cas_state, internal,
  classify_write_storage_error, classify_write_audit_error, Settings, Gauges, Core, Run,
}
use audite_db.WorldOps.Steps.{Step}

abbrev pub set_gauges : (Gauges → Gauges) → Core → Core
set_gauges f core = record {
  mem = core.mem;
  files = core.files;
  write_conns = core.write_conns;
  verified_audit_worlds = core.verified_audit_worlds;
  tombstones = core.tombstones;
  gauges = f core.gauges;
  durable_world_count = core.durable_world_count;
  events = core.events;
}

abbrev pub set_body_bytes : (ℕ → ℕ) → Gauges → Gauges
set_body_bytes f g = record {
  storage_body_bytes = f g.storage_body_bytes;
  storage_current_body_bytes = g.storage_current_body_bytes;
  storage_retained_cas_body_bytes = g.storage_retained_cas_body_bytes;
  storage_audit_chain_events = g.storage_audit_chain_events;
}

abbrev pub set_audit_events : (ℕ → ℕ) → Gauges → Gauges
set_audit_events f g = record {
  storage_body_bytes = g.storage_body_bytes;
  storage_current_body_bytes = g.storage_current_body_bytes;
  storage_retained_cas_body_bytes = g.storage_retained_cas_body_bytes;
  storage_audit_chain_events = f g.storage_audit_chain_events;
}

-- `Core::reserve_storage_after_prune`
unfoldable pub reserve_storage : Settings → ℕ → ℕ → ℕ → Step Reservation
reserve_storage s prev_len new_len pruned_len core =
    elim (reserve_storage_after_prune s.max_storage_bytes core.gauges.storage_body_bytes prev_len
      new_len pruned_len) [
        | err e ↦ (err (quota_exceeded e.used e.quota e.projected), core)
        | ok (counter, r) ↦ (ok r, set_gauges (set_body_bytes (λ used. counter)) core)
      ]

-- `Core::reserve_audit_events`
unfoldable pub reserve_events : Step (Unit {0})
reserve_events core = elim (reserve_audit_events core.gauges.storage_audit_chain_events) [
  | none ↦ (err (internal (codes "audit event counter capacity exhausted")), core)
  | some counter ↦ (ok tt, set_gauges (set_audit_events (λ used. counter)) core)
]

abbrev pub release_storage : Reservation → Core → Core
release_storage r = set_gauges (set_body_bytes (λ used. drop_reservation used r))

abbrev pub release_events : Core → Core
release_events = set_gauges (set_audit_events drop_events)

-- The tables of a world's file, if there is one.
abbrev pub tables_of : Core → Bytes → Option WorldDb
tables_of core world = elim (lookup world core.files) [ none ↦ none | some f ↦ some f.db ]

-- `world_schema::create`
unfoldable pub new_world : Bytes → WorldFile
new_world generation = record {
  db = record {
    generation = generation;
    events = [];
    event_headers = [];
    last_rowid = 0;
    first_retained = none;
    cas_bodies = [];
    stage_body = some [];
  };
  content_type = codes "application/octet-stream";
  meta_headers = [];
}

abbrev pub evicted : Bytes → List (Bytes × OpenedWorldKind) → List (Bytes × OpenedWorldKind)
evicted protected conns = elim (evict_if_needed (length conns) protected conns) [
  | none ↦ conns
  | some left ↦ left
]

-- The cache of connections with one more, and the files.
abbrev pub connect : Bytes → OpenedWorldKind → List (Bytes × WorldFile) → Core → Core
connect world kind files core = record {
  mem = core.mem;
  files = files;
  write_conns = evicted world (insert world kind core.write_conns);
  verified_audit_worlds = core.verified_audit_worlds;
  tombstones = core.tombstones;
  gauges = core.gauges;
  durable_world_count = core.durable_world_count;
  events = core.events;
}

abbrev pub open_failed : StorageError → WriteError
open_failed e = classify_write_storage_error (codes "storage/audit") e read_op

-- Opening the file that is there: an opening that fails leaves the files as they are.
abbrev pub open_file : Run → Bytes → Core → Result WriteError OpenedWorldKind × Core
open_file w world core = elim w.opens [
  | err e ↦ (err (open_failed e), core)
  | ok u ↦ (ok existing, connect world existing core.files core)
]

-- Opening a file that is not there, which creates it under a new generation.
abbrev pub create_file : Run → Bytes → Core → Result WriteError OpenedWorldKind × Core
create_file w world core = elim w.minted [
  | err e ↦ (err (open_failed e), core)
  | ok generation ↦ elim w.opens [
    | err e ↦ (err (open_failed e), core)
    | ok u ↦
        (ok created, connect world created (insert world (new_world generation) core.files) core)
  ]
]

-- `verify_cached_writer_shape`: a poisoned lock of the cached connection ends it first.
abbrev pub check_shape : Run → OpenedWorldKind → Core → Result WriteError OpenedWorldKind × Core
check_shape w kind core =
    if w.poisoned
    then (err (open_failed execute_returned_results), core)
    else elim w.opens [ err e ↦ (err (open_failed e), core) | ok u ↦ (ok kind, core) ]

unfoldable pub cached_write_conn : Run → Bytes → Step OpenedWorldKind
unfolding new_world
cached_write_conn w world core = elim (lookup world core.write_conns) [
  | some kind ↦ check_shape w kind core
  | none ↦ elim (lookup world core.files) [
    | some f ↦ open_file w world core
    | none ↦ create_file w world core
  ]
]

-- `cached_existing_write_conn`, with the error of its caller for a world that is not there
unfoldable pub cached_existing_write_conn : Run → Bytes → Step OpenedWorldKind
cached_existing_write_conn w world core = elim (lookup world core.write_conns) [
  | some kind ↦ check_shape w kind core
  | none ↦ elim (lookup world core.files) [
    | some f ↦ open_file w world core
    | none ↦ (err not_found, core)
  ]
]

unfoldable pub write_failed : WriteAuditError → WriteError
write_failed (audit e) = classify_write_audit_error (codes "storage/audit") e
write_failed (sqlite e) = classify_write_storage_error (codes "storage/audit") e write_audit_op
write_failed (cas_body_mismatch key) = cas_mismatch key
write_failed (storage_invariant reason) = cas_state reason

-- The state after a transaction that committed: the file and the cache of verified worlds.
abbrev pub committed : Bytes → WorldFile → AuditVerificationCache → Core → Core
committed world f cache core = record {
  mem = core.mem;
  files = insert world f core.files;
  write_conns = core.write_conns;
  verified_audit_worlds = cache;
  tombstones = core.tombstones;
  gauges = core.gauges;
  durable_world_count = core.durable_world_count;
  events = core.events;
}

-- `OpenedWriteConnection::mark_existing`, of the cached connection
abbrev pub mark_existing : Bytes → Core → Core
mark_existing world core = record {
  mem = core.mem;
  files = core.files;
  write_conns = insert world existing core.write_conns;
  verified_audit_worlds = core.verified_audit_worlds;
  tombstones = core.tombstones;
  gauges = core.gauges;
  durable_world_count = core.durable_world_count;
  events = core.events;
}

-- A transaction that committed is followed by what its write does to the connection.
abbrev pub transacted :
    Bytes
    → (Core → Core)
    → Core
    → Result WriteAuditError (WriteAuditResult × WorldFile × AuditVerificationCache)
    → Result WriteError WriteAuditResult × Core
transacted world mark core (err e) = (err (write_failed e), core)
transacted world mark core (ok (result, f, cache)) =
    (ok result, mark (committed world f cache core))

-- `note_retained_cas_inserted`
abbrev pub note_inserted : ℕ → ℕ → ℕ
note_inserted retained bytes = if bytes == 0 then retained else adjust_counter retained 0 bytes

-- `credit_pruned_storage_after_estimate`, of the total
abbrev pub credit_extra : ℕ → ℕ → ℕ → ℕ
credit_extra used bytes estimated =
    if bytes - estimated == 0 then used else adjust_counter used (bytes - estimated) 0

-- The gauges after a write that committed.
unfoldable pub settle : Reservation → ℕ → ℕ → ℕ → ℕ → ℕ → WriteAuditResult → Gauges → Gauges
settle pending candidate prunable previous_len next_len inserted_len result g =
    let paid = commit_reservation g.storage_body_bytes pending in
    let refunded =
      if result.cas_body_inserted then paid else rollback_storage_counter paid 0 candidate 0 in
    let retained =
      if result.cas_body_inserted
      then note_inserted g.storage_retained_cas_body_bytes inserted_len
      else g.storage_retained_cas_body_bytes in
    record {
      storage_body_bytes = credit_extra refunded result.pruned_cas prunable;
      storage_current_body_bytes =
          adjust_counter g.storage_current_body_bytes previous_len next_len;
      storage_retained_cas_body_bytes = adjust_counter retained result.pruned_cas 0;
      storage_audit_chain_events =
          if is_some result.format_event
          then commit_two g.storage_audit_chain_events
          else commit_one g.storage_audit_chain_events;
    }
