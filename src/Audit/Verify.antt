-- ===== src/Audit/Verify.antt =====
-- core/src/audit/verifier.rs and core/src/chain_stamp.rs: the walk over a chain, its head and its
-- stamps.
pub mod Sound
use audite_db.Prelude.{
  ℕ, ◌+◌, ◌-◌, ◌≡◌, refl, Bool, true, false, not, ◌&&◌, ◌||◌, Option, none, some, List, [], ◌∷◌,
  ◌++◌, map, Result, ok, err, require, map_err, ok_or, ◌>>=◌, ◌>>◌, any, leb, length, ◌==◌,
  if◌then◌else◌,
}
use audite_db.Prelude.Text.{Bytes, codes, eq_bytes}
use audite_db.Prelude.Int.{ℤ, pos, negsuc, eq_ℤ}
use audite_db.Prelude.Decimal.{decimal}
use audite_db.Prelude.Parse.{i64_max}
use audite_db.Auth.{ct_eq}
use audite_db.WorldPath.{from_canonical}
use audite_db.Timeline.{Crypto, body_sha256_of}
use audite_db.Audit.Events.{
  AuditEventKind, class, EventRow, Header, Entry, VerifyBreak, from_storage, is_delete_kind,
  is_format_kind,
}
use audite_db.Audit.Frame.{
  EventHmacInput, event_hmac, hmac_label, meta_sha256_canonical, is_canonical_sqlite_utc_timestamp,
  sort_headers,
}
use audite_db.Audit.Headers.{
  DeleteSubjectProofError, missing, duplicated, invalid, world_mismatch, body_hash_mismatch,
  delete_subject_proof_from_headers,
}
use audite_db.Audit.Retention.{
  StorageError, invalid_parameter_name, WorldDb, CasRetentionState, floor_is_unset, tail_unchecked,
}
use audite_db.Audit.Bodies.{
  CapturedStamp, VerifyAccumulator, break_of, verify_completion, verify_retained_body,
}

abbrev pub world_format_version_header : Bytes
world_format_version_header = codes "auditedb-world-format-version"

abbrev pub current_world_format_version : ℕ
current_world_format_version = 2

unfoldable pub delete_subject_proof_break : ℕ → DeleteSubjectProofError → VerifyBreak
delete_subject_proof_break idx (missing name) =
    break_of idx (codes "delete-subject-" ++ name) (codes "missing-delete-subject-" ++ name)
delete_subject_proof_break idx (duplicated name) =
    break_of idx (codes "one-delete-subject-" ++ name) (codes "duplicated-delete-subject-" ++ name)
delete_subject_proof_break idx (invalid name) =
    break_of idx (codes "valid-delete-subject-" ++ name) (codes "invalid-delete-subject-" ++ name)
delete_subject_proof_break idx world_mismatch =
    break_of idx (codes "delete-subject-world-matches-target")
      (codes "delete-subject-world-mismatch")
delete_subject_proof_break idx body_hash_mismatch =
    break_of idx (codes "delete-subject-body-sha256-matches-row")
      (codes "delete-subject-body-sha256-mismatch")

unfoldable pub verify_delete_subject_proof :
    EventRow → List Header → AuditEventKind → ℕ → Result VerifyBreak (Unit {0})
unfolding delete_subject_proof_break
verify_delete_subject_proof row headers event_type idx =
    if not (is_delete_kind event_type) then ok tt else do
      target ←
          map_err
            (λ e.
              break_of idx (codes "delete-target-canonical-world") (codes "target-" ++ row.target))
            (from_canonical row.target)
      body_sha256 ←
          map_err
            (λ e.
              break_of idx (codes "delete-row-body-sha256")
                (codes "invalid-delete-row-body-sha256"))
            (body_sha256_of row.body_sha256)
      proof ←
          map_err (delete_subject_proof_break idx)
            (delete_subject_proof_from_headers target body_sha256 headers)
      ok tt

abbrev pub target_bound_to_world : AuditEventKind → Bool
target_bound_to_world event_type = (class event_type).body_bearing || is_format_kind event_type

unfoldable pub has_version : List Header → Bool
has_version headers =
    any
      (λ h.
        eq_bytes h.0 world_format_version_header
        && eq_bytes h.1 (decimal current_world_format_version))
      headers

-- What a row signs, after `prev`, in the chain of a world.
abbrev pub row_input : Bytes → Bytes → Bytes → EventRow → EventHmacInput
row_input world generation prev row = record {
  prev = prev;
  world = world;
  timestamp = row.timestamp;
  event_type = row.event_type;
  target = row.target;
  generation = generation;
  body_sha256 = row.body_sha256;
  size = row.size;
  content_type = row.content_type;
  meta_sha256 = row.meta_sha256;
}

-- The chain that is verified, with its key.
pub record Chain : Type 0 where
  pub key : Bytes
  pub world : Bytes
  pub generation : Bytes

-- `usize::try_from(seq.get()).ok() == Some(next_ordinal)`
abbrev pub is_ordinal : ℤ → ℕ → Bool
is_ordinal (pos n) next_ordinal = n == next_ordinal
is_ordinal (negsuc n) next_ordinal = false

-- The stamp after an event: a new one at the ordinal that was asked for.
abbrev stamp_after : Bytes → EventRow → Option ℤ → ℕ → Option CapturedStamp → Option CapturedStamp
stamp_after generation row none next_ordinal s = s
stamp_after generation row (some seq) next_ordinal s =
    if is_ordinal seq next_ordinal
    then some (record { generation = generation; seq = seq; hmac = hmac_label row.hmac })
    else s

-- The end of `verify_event`: the event is taken into the state.
unfoldable pub advance : Bytes → EventRow → VerifyAccumulator → VerifyAccumulator
advance generation row st = record {
  prev = row.hmac;
  genesis = if st.events == 0 then row.hmac else st.genesis;
  events = 1 + st.events;
  first_body_event = st.first_body_event;
  saw_retention_floor = st.saw_retention_floor;
  referenced_retained_bodies = st.referenced_retained_bodies;
  capture_stamp_at = st.capture_stamp_at;
  captured_stamp = stamp_after generation row st.capture_stamp_at (1 + st.events) st.captured_stamp;
}

-- `verify_event` up to its check of the retained bodies.
unfoldable pub verify_signed :
    Crypto → Chain → EventRow → List Header → VerifyAccumulator → Result VerifyBreak AuditEventKind
unfolding has_version verify_delete_subject_proof
verify_signed c chain row headers st = do
  event_type ←
      ok_or (from_storage row.event_type)
        (break_of st.events (codes "known-event-type") (codes "event-type-" ++ row.event_type))
  require (not (target_bound_to_world event_type) || eq_bytes chain.world row.target)
      (break_of st.events (codes "target-" ++ chain.world) (codes "target-" ++ row.target))
  require (ct_eq row.prev_hmac st.prev)
      (break_of st.events (hmac_label st.prev) (hmac_label row.prev_hmac))
  require (not (is_format_kind event_type) || has_version headers) (
      break_of st.events
        (world_format_version_header ++ b'-' ∷ decimal current_world_format_version)
        (codes "missing-world-format-version"))
  verify_delete_subject_proof row headers event_type st.events
  require (ct_eq (meta_sha256_canonical c row.content_type headers) row.meta_sha256) (
      break_of st.events (codes "meta-sha256-" ++ meta_sha256_canonical c row.content_type headers)
        (codes "meta-sha256-" ++ row.meta_sha256))
  require (is_canonical_sqlite_utc_timestamp row.timestamp)
      (break_of st.events (codes "timestamp-sqlite-utc-ms") (codes "timestamp-" ++ row.timestamp))
  require
      (ct_eq (event_hmac c chain.key (row_input chain.world chain.generation st.prev row)) row.hmac)
      (break_of st.events
        (hmac_label (event_hmac c chain.key (row_input chain.world chain.generation st.prev row)))
        (hmac_label row.hmac))
  ok event_type

unfoldable pub verify_event :
    Crypto
    → Chain
    → CasRetentionState
    → EventRow
    → List Header
    → VerifyAccumulator
    → Result VerifyBreak VerifyAccumulator
unfolding verify_signed advance
verify_event c chain retention row headers st = do
  event_type ← verify_signed c chain row headers st
  kept ← verify_retained_body row event_type st.events retention st
  ok (advance chain.generation row kept)
