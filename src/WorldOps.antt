-- ===== src/WorldOps.antt =====
-- core/src/world_ops.rs: the writes of the engine, with the state of core/src/state.rs that they
-- change. A write holds its world's lock, and is one step here.
pub mod Steps
pub mod Durable
pub mod Guards
pub mod Replace
pub mod Append
pub mod Settling
pub mod Totals
pub mod Connections
pub mod Transactions
pub mod Accounts
pub mod Replacing
pub mod Appending
use audite_db.Prelude.{ℕ, ◌≡◌, Bool, true, false, Option, none, some, List, [], ◌∷◌, Result}
use audite_db.Prelude.Text.{Bytes}
use audite_db.Audit.Events.{Header, VerifyBreak}
use audite_db.Audit.Retention.{StorageError, WorldDb}
use audite_db.Audit.Access.{AuditError, storage, chain_broken}
use audite_db.Etag.{Preconditions, PreconditionError}
use audite_db.MemoryStore.{MemoryStore}
use audite_db.StorageClass.{
  StorageFailureClass, transient, insufficient_storage, other, classify_storage_failure,
}
use audite_db.WorldStore.{WorldFile, OpenedWorldKind, AuditVerificationCache, Times}
use audite_db.EventLog.{EventLog}

pub data StorageOp : Type 0 where
  read_op write_audit_op : StorageOp

-- The errors of a write once it is permitted; the variants of the permit are `AccessError`, and
-- `BlockingWorker` is the runtime's.
pub data WriteError : Type 0 where
  payload_too_large : ℕ → WriteError
  precondition_failed : PreconditionError → WriteError
  not_found shutting_down : WriteError
  quota_exceeded : ℕ → ℕ → ℕ → WriteError
  transient_storage insufficient : Bytes → StorageError → StorageOp → WriteError
  storage_read storage_write_audit : Bytes → StorageError → WriteError
  cas_mismatch cas_state : Bytes → WriteError
  audit_chain_broken : Bytes → VerifyBreak → WriteError
  internal : Bytes → WriteError

unfoldable pub classify_write_storage_error : Bytes → StorageError → StorageOp → WriteError
classify_write_storage_error scope e op = elim (classify_storage_failure e) [
  | insufficient_storage ↦ insufficient scope e op
  | transient ↦ transient_storage scope e op
  | other ↦ elim op [
    | read_op ↦ storage_read scope e
    | write_audit_op ↦ storage_write_audit scope e
  ]
]

unfoldable pub classify_write_audit_error : Bytes → AuditError → WriteError
unfolding classify_write_storage_error
classify_write_audit_error scope (chain_broken b) = audit_chain_broken scope b
classify_write_audit_error scope (storage e) = classify_write_storage_error scope e write_audit_op

-- The settings of `Core`.
pub record Settings : Type 0 where
  pub hmac_key : Bytes
  pub max_world_bytes : ℕ
  pub max_memory_bytes : ℕ
  pub max_storage_bytes : Option ℕ
  pub retained_body_count : ℕ
  pub listen_replay_max : ℕ

-- The gauges of `Core`.
pub record Gauges : Type 0 where
  pub storage_body_bytes : ℕ
  pub storage_current_body_bytes : ℕ
  pub storage_retained_cas_body_bytes : ℕ
  pub storage_audit_chain_events : ℕ

-- The state of `Core`, with the files of its data directory: `write_conns` has the kind with which
-- each cached connection was opened.
pub record Core : Type 0 where
  pub mem : MemoryStore
  pub files : List (Bytes × WorldFile)
  pub write_conns : List (Bytes × OpenedWorldKind)
  pub verified_audit_worlds : AuditVerificationCache
  pub tombstones : List Bytes
  pub gauges : Gauges
  pub durable_world_count : ℕ
  pub events : EventLog

pub record ReplaceRequest : Type 0 where
  pub body : Bytes
  pub content_type : Bytes
  pub headers : List Header
  pub preconditions : Preconditions

pub record AppendRequest : Type 0 where
  pub body : Bytes
  pub preconditions : Preconditions

-- What a write meets outside: whether the gate of the file operations admits it, the generation that
-- is minted for a new world, how the writer's connection opens or passes its check, whether its lock
-- is poisoned, and the clock.
pub record Run : Type 0 where
  pub admitted : Bool
  pub minted : Result StorageError Bytes
  pub opens : Result StorageError (Unit {0})
  pub poisoned : Bool
  pub times : Times

pub data WriteStatusKind : Type 0 where
  created_status updated_status : WriteStatusKind

pub record WriteOutcome : Type 0 where
  pub status_kind : WriteStatusKind
  pub etag : Bytes
