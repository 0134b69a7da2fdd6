-- ===== src/Cas/Estimates.antt =====
-- core/src/world/cas.rs: what a write is expected to store and to prune, read before its transaction.
use audite_db.Prelude.{
  ℕ, zero, suc, ◌+◌, ◌-◌, Bool, not, ◌&&◌, Option, none, some, List, ◌++◌, Result, ok, err, require,
  map_err, ok_or, ◌>>=◌, ◌>>◌, filter, head, last_n, length, leb, ltb, ◌==◌, is_some, min,
  if◌then◌else◌,
}
use audite_db.Prelude.Assoc.{lookup}
use audite_db.Prelude.Text.{Bytes, codes, eq_bytes}
use audite_db.Prelude.Int.{ℤ, pos, negsuc}
use audite_db.Prelude.Parse.{i64_max, usize_max}
use audite_db.Timeline.{Crypto, body_sha256_for, timeline_seq}
use audite_db.Audit.Events.{EventRow}
use audite_db.Audit.Retention.{
  StorageError, corrupt_error, integer_overflow, invalid_column_type, WorldDb,
}
use audite_db.Audit.Access.{last_entry}
use audite_db.Cas.{body_rows, named_below, named_from, total_len, is_above}

unfoldable pub missing_body_len : Crypto → WorldDb → Bytes → ℕ
missing_body_len c db body =
    if is_some (lookup (body_sha256_for c body) db.cas_bodies) then 0 else length body

-- `EstimatedRetentionFloor::new`
abbrev pub estimated_floor : ℤ → Result StorageError (Option ℤ)
estimated_floor raw = do
  seq ←
      map_err (λ e. corrupt_error (codes "estimated retention floor is not a positive event id"))
        (timeline_seq raw)
  ok (some seq)

abbrev pub next_id : ℤ → ℤ
next_id (pos n) = pos (1 + n)
next_id (negsuc zero) = pos 0
next_id (negsuc (suc n)) = negsuc n

-- `COALESCE(MAX(id), 0) + 1`
abbrev pub next_event_id : List EventRow → ℤ
next_event_id events = elim (last_entry events) [ none ↦ pos 1 | some row ↦ next_id row.id ]

unfoldable pub retained_floor_after_next_body : List EventRow → ℕ → Result StorageError (Option ℤ)
retained_floor_after_next_body events retained =
    if not (leb retained i64_max)
    then ok none
    else if ltb (min (length (body_rows events) + 1) i64_max) retained
    then ok none
    else if retained == 1
    then estimated_floor (next_event_id events)
    else (elim (head (last_n (retained - 1) (body_rows events))) [
      | none ↦ ok none
      | some row ↦ estimated_floor row.id
    ])

-- The read of `cas_state`, whose row `.optional()?.flatten()` may leave out.
unfoldable pub estimated_current_floor : WorldDb → Result StorageError (Option ℤ)
estimated_current_floor db = elim db.first_retained [
  | none ↦ ok none
  | some raw ↦ do
    seq ←
        map_err (λ e. corrupt_error (codes "cas_state first_retained_seq invalid"))
          (timeline_seq raw)
    ok (some seq)
]

-- A body that is to be pruned once the candidate is the newest.
abbrev pub is_prunable : List EventRow → ℤ → Bytes → Bytes × Bytes → Bool
is_prunable events floor candidate entry =
    named_below events floor entry.0
    && not (eq_bytes entry.0 candidate)
    && not (named_from events floor entry.0)

abbrev pub prunable_len : WorldDb → ℤ → Bytes → Result StorageError ℕ
prunable_len db floor candidate =
    let bytes = total_len (filter (is_prunable db.events floor candidate) db.cas_bodies) in
    if leb bytes i64_max then ok bytes else err integer_overflow

unfoldable pub prunable_body_len_after_next_body :
    Crypto → WorldDb → Bytes → ℕ → Result StorageError ℕ
unfolding retained_floor_after_next_body estimated_current_floor
prunable_body_len_after_next_body c db body retained = do
  new_floor ← retained_floor_after_next_body db.events retained
  (elim new_floor [
    | none ↦ ok 0
    | some floor ↦ do
      current ← estimated_current_floor db
      (if is_above floor current then prunable_len db floor (body_sha256_for c body) else ok 0)
  ])

-- `SELECT body`, which has to be a blob
unfoldable pub read_body : WorldDb → Result StorageError Bytes
read_body db = ok_or db.stage_body invalid_column_type

pub record ReplaceQuotaSnapshot : Type 0 where
  pub previous_body_len : ℕ
  pub candidate_cas_len : ℕ
  pub prunable_cas_len : ℕ

-- The tables are those of a world that may not exist.
unfoldable pub replace_quota_snapshot :
    Crypto → Option WorldDb → Bytes → ℕ → Result StorageError ReplaceQuotaSnapshot
unfolding prunable_body_len_after_next_body read_body
replace_quota_snapshot c none body retained =
    ok (record { previous_body_len = 0; candidate_cas_len = length body; prunable_cas_len = 0 })
replace_quota_snapshot c (some db) body retained = do
  previous ← read_body db
  prunable ← prunable_body_len_after_next_body c db body retained
  ok (record {
    previous_body_len = length previous;
    candidate_cas_len = missing_body_len c db body;
    prunable_cas_len = prunable;
  })

unfoldable pub append_body_len_if_missing :
    Crypto → Option WorldDb → Bytes → Result StorageError (Option ℕ)
unfolding read_body
append_body_len_if_missing c none append_body = ok none
append_body_len_if_missing c (some db) append_body = do
  body ← read_body db
  ok (some (missing_body_len c db (body ++ append_body)))

unfoldable pub append_prunable_body_len_after_next_write :
    Crypto → Option WorldDb → Bytes → ℕ → Result StorageError (Option ℕ)
unfolding prunable_body_len_after_next_body read_body
append_prunable_body_len_after_next_write c none append_body retained = ok none
append_prunable_body_len_after_next_write c (some db) append_body retained = do
  body ← read_body db
  prunable ← prunable_body_len_after_next_body c db (body ++ append_body) retained
  ok (some prunable)

-- `StorageUsageSnapshot` of core/src/world.rs
pub record StorageUsageSnapshot : Type 0 where
  pub current_body_bytes : ℕ
  pub retained_cas_body_bytes : ℕ
  pub audit_chain_events : ℕ

-- The bodies of `cas_bodies` are blobs by a constraint of the table.
unfoldable pub storage_usage : Option WorldDb → Result StorageError (Option StorageUsageSnapshot)
unfolding read_body
storage_usage none = ok none
storage_usage (some db) = do
  current ← read_body db
  let retained_len = total_len db.cas_bodies
  require (leb retained_len i64_max) integer_overflow
  require (leb (length current + retained_len) usize_max) integer_overflow
  ok (
      some (record {
        current_body_bytes = length current;
        retained_cas_body_bytes = retained_len;
        audit_chain_events = length db.events;
      }))
