-- ===== src/WorldOps/Guards.antt =====
-- core/src/world_ops.rs and core/src/state.rs: what both writes check before they start, and what they
-- tell when they are done.
use audite_db.Prelude.{
  ℕ, ◌+◌, ◌^◌, ◌%◌, Bool, not, ◌&&◌, Option, none, some, List, ◌++◌, Result, ok, err, require,
  map_err, ◌==◌, if◌then◌else◌,
}
use audite_db.Prelude.Assoc.{lookup}
use audite_db.Prelude.Text.{Bytes, codes}
use audite_db.Prelude.Parse.{usize_max}
use audite_db.Timeline.{Crypto}
use audite_db.Auth.{
  AuthGate, read_gate, write_gate, write_approve_gate, delete_gate, WritePermit, write_gate_of,
}
use audite_db.Audit.Access.{AuditError}
use audite_db.Audit.Append.{AppendedAuditRow}
use audite_db.Etag.{Preconditions, hmac_etag, body_etag, check_preconditions, is_nil}
use audite_db.EventLog.{
  ChangeVerb, replace_verb, append_verb, format_verb, ChangeTarget, chain_target, ephemeral, notify,
}
use audite_db.MemoryStore.{MemoryStore, MemoryQuotaError, is_memory_world}
use audite_db.Storage.{quota_of}
use audite_db.WorldStore.{
  WorldFile, OpenedWorldKind, WriteAuditResult, Stage, metadata, read_with_hmac, write_with_audit,
  append_with_audit, unmark,
}
use audite_db.WorldOps.{
  WriteError, precondition_failed, shutting_down, quota_exceeded, internal,
  classify_write_audit_error, Settings, Core, Run,
}
use audite_db.WorldOps.Steps.{Step, lift}
use audite_db.WorldOps.Durable.{transacted}

abbrev pub gate_number : AuthGate → ℕ
gate_number read_gate = 0
gate_number write_gate = 1
gate_number write_approve_gate = 2
gate_number delete_gate = 3

unfoldable pub ensure_write_permit : WritePermit → Result WriteError (Unit {0})
ensure_write_permit permit =
    require (gate_number permit.gate == gate_number (write_gate_of permit.world))
      (internal (codes "write permit gate mismatch"))

abbrev pub with_state : MemoryStore → List Bytes → ℕ → audite_db.EventLog.EventLog → Core → Core
with_state mem tombstones count events core = record {
  mem = mem;
  files = core.files;
  write_conns = core.write_conns;
  verified_audit_worlds = core.verified_audit_worlds;
  tombstones = tombstones;
  gauges = core.gauges;
  durable_world_count = count;
  events = events;
}

-- `clear_tombstone`, of the read cache
abbrev pub clear_tombstone : Bytes → Core → Core
clear_tombstone world core =
    if is_memory_world world
    then core
    else with_state core.mem (unmark world core.tombstones) core.durable_world_count core.events
        core

-- `read_world_with_etag`
unfoldable pub read_world_with_etag :
    Crypto → Settings → Bytes → Core → Result AuditError (Option (Stage × Bytes))
read_world_with_etag c s world core =
    if is_memory_world world
    then (elim (lookup world core.mem.entries) [
      | none ↦ ok none
      | some e ↦ ok (
          some (
            (record { body = e.body; content_type = e.content_type; headers = e.headers }),
            codes "sha256-" ++ e.body_hash,
          ))
    ])
    else elim (lookup world core.files) [
      | none ↦ ok none
      | some f ↦ elim (read_with_hmac c (record { key = s.hmac_key; world = world }) f) [
        | err e ↦ err e
        | ok (stage, hmac) ↦
            ok (some (stage, (elim hmac [ none ↦ body_etag c stage.body | some h ↦ hmac_etag h ])))
      ]
    ]

abbrev pub tag_of : Option (Stage × Bytes) → Option Bytes
tag_of none = none
tag_of (some (stage, etag)) = some etag

unfoldable pub check_write_preconditions :
    Crypto → Settings → Bytes → Preconditions → Core → Result WriteError (Unit {0})
unfolding read_world_with_etag
check_write_preconditions c s world p core =
    if is_nil p.if_match && is_nil p.if_none_match
    then ok tt
    else elim (read_world_with_etag c s world core) [
      | err e ↦ err (classify_write_audit_error (codes "precondition read") e)
      | ok current ↦ map_err precondition_failed (check_preconditions p (tag_of current))
    ]

-- A transaction on the file of a cached connection, which is there as long as the connection is.
abbrev pub transaction :
    Bytes
    → (Core → Core)
    → (WorldFile
        → audite_db.WorldStore.AuditVerificationCache
        → Result audite_db.Cas.WriteAuditError
            (WriteAuditResult × WorldFile × audite_db.WorldStore.AuditVerificationCache))
    → Step WriteAuditResult
transaction world mark tx core = elim (lookup world core.files) [
  | none ↦ (err (internal (codes "cached connection without a file")), core)
  | some f ↦ transacted world mark core (tx f core.verified_audit_worlds)
]

-- A world that was not there is counted, in a `usize` that wraps.
abbrev pub count_world : Bool → Core → Core
count_world existed core =
    with_state core.mem core.tombstones
      (if existed then core.durable_world_count else (core.durable_world_count + 1) % 2 ^ 64)
      core.events core

abbrev pub unpoisoned : Run → Step (Unit {0})
unpoisoned w = lift (require (not w.poisoned) (internal (codes "writer connection lock poisoned")))

abbrev pub overflowing : Settings → Core → WriteError
overflowing s core =
    quota_exceeded core.gauges.storage_body_bytes (quota_of s.max_storage_bytes) usize_max

-- What a write has to tell: whether the world was there, the tag, the target, and the format event.
pub record Written : Type 0 where
  pub existed : Bool
  pub etag : Bytes
  pub target : ChangeTarget
  pub format_event : Option AppendedAuditRow

abbrev pub durable_written : WriteAuditResult → Written
durable_written result = record {
  existed = result.existed;
  etag = hmac_etag result.body_event.hmac;
  target = chain_target result.body_event;
  format_event = result.format_event;
}

abbrev pub over_memory_quota : MemoryQuotaError → WriteError
over_memory_quota e = quota_exceeded e.used e.quota e.projected

abbrev pub stored_in_memory : MemoryStore → Core → Core
stored_in_memory mem core = with_state mem core.tombstones core.durable_world_count core.events core

abbrev pub notify_event : Settings → ChangeVerb → ChangeTarget → Bytes → Core → Core
notify_event s verb target etag core =
    with_state core.mem core.tombstones core.durable_world_count
      (notify s.listen_replay_max verb target etag core.events) core

-- The end of both writes: the format event is told of first.
abbrev pub tell : Settings → ChangeVerb → Written → Core → Core
tell s verb done core =
    let formatted : Core = elim done.format_event [
      | none ↦ core
      | some row ↦ notify_event s format_verb (chain_target row) (hmac_etag row.hmac) core
    ] in
    notify_event s verb done.target done.etag formatted

abbrev pub admit : Run → Step (Unit {0})
admit w = lift (require w.admitted shutting_down)

abbrev pub preconditions_hold : Crypto → Settings → Bytes → Preconditions → Step (Unit {0})
preconditions_hold c s world p core = (check_write_preconditions c s world p core, core)
