-- ===== src/WorldOps/Replace.antt =====
-- core/src/world_ops.rs: `replace_write`.
use audite_db.Prelude.{none, ok, err, require, map_err, ok_or, length, leb, if◌then◌else◌}
use audite_db.Prelude.Text.{Bytes, codes}
use audite_db.Timeline.{Crypto}
use audite_db.Auth.{WritePermit}
use audite_db.Cas.Estimates.{ReplaceQuotaSnapshot, replace_quota_snapshot}
use audite_db.Etag.{body_etag}
use audite_db.EventLog.{replace_verb, ephemeral}
use audite_db.MemoryStore.{is_persistent, checked_add, write_with_quota}
use audite_db.Storage.{Reservation}
use audite_db.WorldStore.{WriteAuditResult, write_with_audit}
use audite_db.WorldOps.{
  read_op, payload_too_large, classify_write_storage_error, Settings, ReplaceRequest, Run,
  created_status, updated_status, WriteOutcome,
}
use audite_db.WorldOps.Steps.{Step, ◌>>=◌, ◌>>◌, pure, lift, get, modify, on_error}
use audite_db.WorldOps.Durable.{
  set_gauges, reserve_storage, reserve_events, release_storage, release_events, tables_of,
  cached_write_conn, mark_existing, settle,
}
use audite_db.WorldOps.Guards.{
  ensure_write_permit, clear_tombstone, transaction, count_world, unpoisoned, overflowing,
  durable_written, over_memory_quota, stored_in_memory, tell, admit, preconditions_hold, Written,
}

-- The part of `replace_write_blocking` under both reservations.
unfoldable pub replace_transaction :
    Crypto
    → Settings
    → Run
    → Bytes
    → ReplaceRequest
    → ReplaceQuotaSnapshot
    → Reservation
    → Step WriteAuditResult
unfolding cached_write_conn
replace_transaction c s w world req snapshot pending = do
  opened ← cached_write_conn w world
  unpoisoned w
  result ← transaction world (mark_existing world) (λ f cache.
      write_with_audit c (record { key = s.hmac_key; world = world }) s.retained_body_count w.times
        opened req.body req.content_type req.headers cache f)
  modify (
      set_gauges (
        settle pending snapshot.candidate_cas_len snapshot.prunable_cas_len
          snapshot.previous_body_len (length req.body) (length req.body) result))
  modify (count_world result.existed)
  pure result

-- The persistent branch of `replace_write_blocking`.
unfoldable pub replace_durable :
    Crypto → Settings → Run → Bytes → ReplaceRequest → Step WriteAuditResult
unfolding reserve_storage reserve_events replace_transaction
replace_durable c s w world req = do
  core ← get
  snapshot ← lift (
      map_err (λ e. classify_write_storage_error (codes "storage accounting preflight") e read_op)
        (replace_quota_snapshot c (tables_of core world) req.body s.retained_body_count))
  reserve_new_len ←
      lift (ok_or (checked_add (length req.body) snapshot.candidate_cas_len) (overflowing s core))
  pending ← reserve_storage s snapshot.previous_body_len reserve_new_len snapshot.prunable_cas_len
  on_error (release_storage pending) (
      reserve_events
      >> on_error release_events (replace_transaction c s w world req snapshot pending))

-- The branch of `replace_write_blocking` for a world in memory.
unfoldable pub replace_memory : Crypto → Settings → Bytes → ReplaceRequest → Step Written
replace_memory c s world req core =
    elim (write_with_quota c world req.body req.content_type req.headers s.max_memory_bytes
      core.mem) [
        | err e ↦ (err (over_memory_quota e), core)
        | ok (existed, mem) ↦ (
          ok (record {
            existed = existed;
            etag = body_etag c req.body;
            target = ephemeral world;
            format_event = none;
          }),
          stored_in_memory mem core,
        )
      ]

-- `replace_write`, which takes the lock of the world before its blocking part
unfoldable pub replace_write :
    Crypto → Settings → Run → WritePermit → ReplaceRequest → Step WriteOutcome
unfolding ensure_write_permit replace_durable replace_memory
replace_write c s w permit req = do
  lift (ensure_write_permit permit)
  lift (require (leb (length req.body) s.max_world_bytes) (payload_too_large s.max_world_bytes))
  admit w
  modify (clear_tombstone permit.world)
  preconditions_hold c s permit.world req.preconditions
  done ←
      (if is_persistent permit.world
        then (replace_durable c s w permit.world req >>= λ result. pure (durable_written result))
        else replace_memory c s permit.world req)
  modify (tell s replace_verb done)
  pure (record {
    status_kind = if done.existed then updated_status else created_status;
    etag = done.etag;
  })
