-- ===== src/WorldOps/Append.antt =====
-- core/src/world_ops.rs: `append_write`.
use audite_db.Prelude.{
  ℕ, ◌+◌, true, Option, none, some, List, ◌++◌, Result, ok, err, require, map_err, ok_or, length,
  leb, if◌then◌else◌,
}
use audite_db.Prelude.Assoc.{lookup}
use audite_db.Prelude.Text.{Bytes, codes}
use audite_db.Timeline.{Crypto}
use audite_db.Auth.{WritePermit}
use audite_db.Audit.Events.{Header}
use audite_db.Audit.Retention.{StorageError}
use audite_db.Cas.Estimates.{append_body_len_if_missing, append_prunable_body_len_after_next_write}
use audite_db.EventLog.{append_verb, ephemeral}
use audite_db.MemoryStore.{is_persistent, is_memory_world, checked_add, append_with_quota}
use audite_db.Storage.{Reservation}
use audite_db.WorldStore.{WriteAuditResult, metadata, append_with_audit}
use audite_db.WorldOps.{
  read_op, WriteError, payload_too_large, not_found, classify_write_storage_error, Settings, Core,
  AppendRequest, Run, updated_status, WriteOutcome,
}
use audite_db.WorldOps.Steps.{Step, ◌>>=◌, ◌>>◌, pure, lift, get, modify, on_error}
use audite_db.WorldOps.Durable.{
  set_gauges, reserve_storage, reserve_events, release_storage, release_events, tables_of,
  cached_existing_write_conn, settle,
}
use audite_db.WorldOps.Guards.{
  ensure_write_permit, clear_tombstone, transaction, unpoisoned, overflowing, durable_written,
  over_memory_quota, stored_in_memory, tell, admit, preconditions_hold, Written,
}

-- The metadata of a world of either kind.
abbrev pub current_metadata : Bytes → Core → Result WriteError (Option (ℕ × Bytes × List Header))
current_metadata world core =
    if is_memory_world world
    then (elim (lookup world core.mem.entries) [
      | none ↦ ok none
      | some e ↦ ok (some (length e.body, e.content_type, e.headers))
    ])
    else map_err (λ e. classify_write_storage_error (codes "storage metadata") e read_op)
        (metadata (lookup world core.files))

-- The part of `append_write_blocking` under both reservations.
unfoldable pub append_transaction :
    Crypto
    → Settings
    → Run
    → Bytes
    → Bytes
    → ℕ
    → Bytes
    → List Header
    → ℕ
    → ℕ
    → Reservation
    → Step WriteAuditResult
unfolding cached_existing_write_conn
append_transaction c s w world body body_len content_type headers candidate prunable pending = do
  opened ← cached_existing_write_conn w world
  unpoisoned w
  result ←
      transaction world (λ after. after)
        (λ f cache.
          append_with_audit c (record { key = s.hmac_key; world = world }) s.retained_body_count
            w.times body content_type headers cache f)
  modify (
      set_gauges (
        settle pending candidate prunable body_len (body_len + length body) (body_len + length body)
          result))
  pure result

abbrev pub read_cas : Result StorageError (Option ℕ) → Result WriteError ℕ
read_cas r = elim r [
  | err e ↦ err (classify_write_storage_error (codes "storage/cas") e read_op)
  | ok none ↦ err not_found
  | ok (some n) ↦ ok n
]

-- The persistent branch of `append_write_blocking`.
unfoldable pub append_durable :
    Crypto → Settings → Run → Bytes → Bytes → ℕ → Bytes → List Header → Step WriteAuditResult
unfolding reserve_storage reserve_events append_transaction
append_durable c s w world body body_len content_type headers = do
  core ← get
  candidate ← lift (read_cas (append_body_len_if_missing c (tables_of core world) body))
  prunable ← lift (
      read_cas (
        append_prunable_body_len_after_next_write c (tables_of core world) body
          s.retained_body_count))
  reserve_new_len ← lift (ok_or (checked_add (length body) candidate) (overflowing s core))
  pending ← reserve_storage s 0 reserve_new_len prunable
  on_error (release_storage pending) (
      reserve_events
      >> on_error release_events (
          append_transaction c s w world body body_len content_type headers candidate prunable
            pending))

-- The branch of `append_write_blocking` for a world in memory.
unfoldable pub append_memory : Crypto → Settings → Bytes → Bytes → Step Written
append_memory c s world body core =
    elim (append_with_quota c world body s.max_memory_bytes core.mem) [
      | err e ↦ (err (over_memory_quota e), core)
      | ok (none, mem) ↦ (err not_found, core)
      | ok (some hash, mem) ↦ (
        ok (record {
          existed = true;
          etag = codes "sha256-" ++ hash;
          target = ephemeral world;
          format_event = none;
        }),
        stored_in_memory mem core,
      )
    ]

-- `append_write`
unfoldable pub append_write :
    Crypto → Settings → Run → WritePermit → AppendRequest → Step WriteOutcome
unfolding ensure_write_permit append_durable append_memory
append_write c s w permit req = do
  lift (ensure_write_permit permit)
  admit w
  modify (clear_tombstone permit.world)
  preconditions_hold c s permit.world req.preconditions
  core ← get
  found ← lift (current_metadata permit.world core)
  current ← lift (ok_or found not_found)
  projected_len ←
      lift (ok_or (checked_add current.0 (length req.body)) (payload_too_large s.max_world_bytes))
  lift (require (leb projected_len s.max_world_bytes) (payload_too_large s.max_world_bytes))
  done ←
      (if is_persistent permit.world
        then (append_durable c s w permit.world req.body current.0 current.1 current.2 >>= λ result.
            pure (durable_written result))
        else append_memory c s permit.world req.body)
  modify (tell s append_verb done)
  pure (record { status_kind = updated_status; etag = done.etag })
