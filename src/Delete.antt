-- ===== src/Delete.antt =====
-- core/src/delete_ops.rs: the delete of a world, between its intent and its commit in the delete
-- ledger.
pub mod Blocking
pub mod Conclusions
pub mod Protocol
use audite_db.Prelude.{
  ℕ, ◌+◌, ◌-◌, ◌%◌, ◌^◌, ◌≡◌, Bool, true, false, not, ◌&&◌, ◌||◌, Option, none, some, List, [], ◌∷◌,
  ◌++◌, Result, ok, err, require, map_err, ok_or, ◌>>=◌, ◌>>◌, any, ◌==◌, if◌then◌else◌,
}
use audite_db.Prelude.Text.{Bytes, codes}
use audite_db.Prelude.Int.{ℤ, pos}
use audite_db.Timeline.{Crypto, body_sha256_for}
use audite_db.Auth.{AuthGate, delete_gate}
use audite_db.MemoryStore.{is_persistent, is_memory_world}
use audite_db.Audit.Events.{
  AuditEventKind, delete_intent, delete_commit, delete_commit_failed, Header,
}
use audite_db.Audit.Headers.{AuditHeaders, DeleteSubjectProof, from_user, with_delete_subject}
use audite_db.Audit.Retention.{StorageError, corrupt_error}
use audite_db.Audit.Access.{AuditError, storage}
use audite_db.Audit.Append.{NewEvent}
use audite_db.Etag.{Preconditions, PreconditionError, check_preconditions, is_nil}
use audite_db.Ledger.{
  AuditAppendJob, BlockingSqliteError, AppendedLedgerEvent, Attempt, LedgerState, Notice,
  deleted_notice, as_delete_intent, append_ledger_event_and_notify,
}
use audite_db.Storage.{adjust_counter}

-- A refusal; `read_failed` is any of the classified failures of a read, with its scope.
pub data DeleteError : Type 0 where
  reserved_metadata_header invalid_metadata not_found : DeleteError
  precondition_failed : PreconditionError → DeleteError
  read_failed : Bytes → AuditError → DeleteError
  subject_missing_head shutting_down delete_failed_after_intent audit_commit_failed : DeleteError
  audit_intent : BlockingSqliteError → DeleteError
  internal_invariant : Bytes → DeleteError

pub record DeleteRequest : Type 0 where
  pub preconditions : Preconditions
  pub content_type : Bytes
  pub headers : List Header

-- `StorageUsageSnapshot`
pub record Usage : Type 0 where
  pub total_body_bytes : ℕ
  pub current_body_bytes : ℕ
  pub retained_cas_body_bytes : ℕ
  pub audit_chain_events : ℕ

-- What the world's files answer to the reads of a delete and to its removal, whether the database is
-- still there after a removal that has failed, and what the ledger's file and the clock do in the
-- three appends.
pub record World : Type 0 where
  pub admitted : Bool
  pub current_tag : Result AuditError (Option Bytes)
  pub stage : Result AuditError (Option Bytes)
  pub usage : Result AuditError (Option Usage)
  pub head : Result AuditError (Option DeleteSubjectProof)
  pub removed : Bool
  pub left : Bool
  pub at_intent : Attempt
  pub at_commit : Attempt
  pub at_commit_failed : Attempt

-- The part of `Core` that a delete changes.
pub record Core : Type 0 where
  pub ledger : LedgerState
  pub delete_ledger_created : Bool
  pub durable_world_count : ℕ
  pub storage_body_bytes : ℕ
  pub storage_current_body_bytes : ℕ
  pub storage_retained_cas_body_bytes : ℕ
  pub present : Bool
  pub write_conn_cached : Bool
  pub tombstone : Bool
  pub verified : Bool

abbrev is_control_byte : ℕ → Bool
is_control_byte b = b == 0 || b == 13 || b == 10

unfoldable pub contains_metadata_control_char : Bytes → Bool
contains_metadata_control_char value = any is_control_byte value

-- `validate_representation_metadata`
unfoldable pub valid_metadata : Bytes → List Header → Bool
unfolding contains_metadata_control_char
valid_metadata content_type headers =
    not (contains_metadata_control_char content_type)
    && not (
        any (λ h. contains_metadata_control_char h.0 || contains_metadata_control_char h.1) headers)

unfoldable pub check_delete_preconditions : Preconditions → World → Result DeleteError (Unit {0})
check_delete_preconditions p w = if is_nil p.if_match && is_nil p.if_none_match then ok tt else do
  current ← map_err (read_failed (codes "precondition read")) w.current_tag
  map_err precondition_failed (check_preconditions p current)

abbrev storage_len_missing_error : StorageError
storage_len_missing_error =
    corrupt_error (codes "persistent world vanished while computing storage_len")

-- `accounted_storage_usage` of a persistent world
abbrev usage_before : Bytes → World → Result DeleteError (Option Usage)
usage_before world w =
    if is_persistent world
    then (do
      found ← map_err (read_failed (codes "storage size")) w.usage
      usage ← ok_or found (read_failed (codes "storage size") (storage storage_len_missing_error))
      ok (some usage))
    else ok none

unfoldable pub capture_delete_subject_proof :
    Bytes → World → Result DeleteError (Option DeleteSubjectProof)
capture_delete_subject_proof world w = if is_memory_world world then ok none else do
  found ← map_err (read_failed (codes "subject audit")) w.head
  head ← ok_or found subject_missing_head
  ok (some head)

-- What `delete_blocking` has gathered when it is about to write.
pub record Prepared : Type 0 where
  pub usage : Option Usage
  pub body_sha256 : Bytes
  pub content_type : Bytes
  pub headers : AuditHeaders

abbrev subject_body : Crypto → Bytes → Option DeleteSubjectProof → Bytes
subject_body c body none = body_sha256_for c body
subject_body c body (some p) = p.body_sha256

abbrev subject_headers_of : AuditHeaders → Option DeleteSubjectProof → AuditHeaders
subject_headers_of h none = h
subject_headers_of h (some p) = with_delete_subject h p

-- `delete_blocking` up to its first write.
unfoldable pub prepare : Crypto → Bytes → DeleteRequest → World → Result DeleteError Prepared
unfolding check_delete_preconditions capture_delete_subject_proof valid_metadata
prepare c world req w = do
  require w.admitted shutting_down
  check_delete_preconditions req.preconditions w
  require (valid_metadata req.content_type req.headers) invalid_metadata
  user_headers ← map_err (λ e. reserved_metadata_header) (from_user req.headers)
  found ← map_err (read_failed (codes "storage read")) w.stage
  body ← ok_or found not_found
  usage ← usage_before world w
  subject ← capture_delete_subject_proof world w
  ok (record {
    usage = usage;
    body_sha256 = subject_body c body subject;
    content_type = req.content_type;
    headers = subject_headers_of user_headers subject;
  })

abbrev pub job_of : AuditEventKind → Bytes → Prepared → AuditAppendJob
job_of kind world p = record {
  event = record {
    kind = kind;
    target = world;
    body_sha256 = p.body_sha256;
    size = pos 0;
    content_type = p.content_type;
    headers = [];
  };
  headers = p.headers;
}

abbrev pub with_ledger : Core → LedgerState → Core
with_ledger s l = record {
  ledger = l;
  delete_ledger_created = s.delete_ledger_created;
  durable_world_count = s.durable_world_count;
  storage_body_bytes = s.storage_body_bytes;
  storage_current_body_bytes = s.storage_current_body_bytes;
  storage_retained_cas_body_bytes = s.storage_retained_cas_body_bytes;
  present = s.present;
  write_conn_cached = s.write_conn_cached;
  tombstone = s.tombstone;
  verified = s.verified;
}

-- The intent is written: the ledger counts as a world (`fetch_add`, which wraps), the writer's
-- connection and the readers' are closed behind the tombstone, and the files are removed. A removal
-- that fails may have unlinked the database all the same.
unfoldable pub remove_files : World → Core → Core
remove_files w s = record {
  ledger = s.ledger;
  delete_ledger_created = true;
  durable_world_count =
      (s.durable_world_count + (if s.delete_ledger_created then 0 else 1)) % 2 ^ 64;
  storage_body_bytes = s.storage_body_bytes;
  storage_current_body_bytes = s.storage_current_body_bytes;
  storage_retained_cas_body_bytes = s.storage_retained_cas_body_bytes;
  present = if w.removed then false else s.present && w.left;
  write_conn_cached = false;
  tombstone = true;
  verified = s.verified;
}

abbrev pub clear_tombstone : Core → Core
clear_tombstone s = record {
  ledger = s.ledger;
  delete_ledger_created = s.delete_ledger_created;
  durable_world_count = s.durable_world_count;
  storage_body_bytes = s.storage_body_bytes;
  storage_current_body_bytes = s.storage_current_body_bytes;
  storage_retained_cas_body_bytes = s.storage_retained_cas_body_bytes;
  present = s.present;
  write_conn_cached = s.write_conn_cached;
  tombstone = false;
  verified = s.verified;
}
