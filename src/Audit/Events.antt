-- ===== src/Audit/Events.antt =====
-- The kinds of core/src/event.rs, and the rows of the tables that core/src/world_schema.rs creates,
-- as core/src/audit.rs reads them.
use audite_db.Prelude.{
  ℕ, ◌≡◌, refl, Bool, true, false, Option, none, some, List, if◌then◌else◌, arith, ◌↔◌, ap, ◌∙◌,
}
use audite_db.Prelude.Text.{Bytes, codes, eq_bytes, eq_bytes_iff}
use audite_db.Prelude.Int.{ℤ}

pub data AuditEventKind : Type 0 where
  put append delete_intent delete_commit delete_commit_failed format : AuditEventKind

pub data AuditPayloadHome : Type 0 where
  cas event_metadata : AuditPayloadHome

pub record AuditEventClass : Type 0 where
  pub body_bearing : Bool
  pub retention_slot : Bool
  pub notifies : Bool
  pub payload_home : AuditPayloadHome

abbrev body_class : AuditEventClass
body_class = record {
  body_bearing = true;
  retention_slot = true;
  notifies = true;
  payload_home = cas;
}

abbrev metadata_class : AuditEventClass
metadata_class = record {
  body_bearing = false;
  retention_slot = false;
  notifies = true;
  payload_home = event_metadata;
}

abbrev pub class : AuditEventKind → AuditEventClass
class put = body_class
class append = body_class
class _ = metadata_class

abbrev pub as_str : AuditEventKind → Bytes
as_str put = codes "put"
as_str append = codes "append"
as_str delete_intent = codes "delete_intent"
as_str delete_commit = codes "delete_commit"
as_str delete_commit_failed = codes "delete_commit_failed"
as_str format = codes "format"

unfoldable pub from_storage : Bytes → Option AuditEventKind
from_storage raw =
    if eq_bytes raw (codes "put")
    then some put
    else if eq_bytes raw (codes "append")
    then some append
    else if eq_bytes raw (codes "delete_intent")
    then some delete_intent
    else if eq_bytes raw (codes "delete_commit")
    then some delete_commit
    else if eq_bytes raw (codes "delete_commit_failed")
    then some delete_commit_failed
    else if eq_bytes raw (codes "format")
    then some format
    else none

-- `EventMetadataKind::from_kind`: the kinds that an append without a body may have
unfoldable pub from_kind : AuditEventKind → Option AuditEventKind
from_kind put = none
from_kind append = none
from_kind k = some k

abbrev pub is_delete_kind : AuditEventKind → Bool
is_delete_kind delete_intent = true
is_delete_kind delete_commit = true
is_delete_kind delete_commit_failed = true
is_delete_kind _ = false

abbrev pub is_format_kind : AuditEventKind → Bool
is_format_kind format = true
is_format_kind _ = false

-- The name and the value of a header.
abbrev pub Header : Type 0
Header = Bytes × Bytes

-- A row of `events`.
pub record EventRow : Type 0 where
  pub id : ℤ
  pub timestamp : Bytes
  pub event_type : Bytes
  pub target : Bytes
  pub body_sha256 : Bytes
  pub size : ℤ
  pub content_type : Bytes
  pub meta_sha256 : Bytes
  pub hmac : Bytes
  pub prev_hmac : Bytes

-- `EventWithHeaders`
abbrev pub Entry : Type 0
Entry = EventRow × List Header

pub record VerifyBreak : Type 0 where
  pub break_at : ℕ
  pub expected : Bytes
  pub actual : Bytes

-- The storage names of the kinds are read back, and no other string is read as a kind.
pub from_storage_iff :
    (raw : Bytes) (k : AuditEventKind) → (from_storage raw ≡ some k) ↔ (raw ≡ as_str k)
unfolding from_storage
from_storage_iff raw k = (sound raw k, complete raw k)
  where
    sound : (raw : Bytes) (k : AuditEventKind) → from_storage raw ≡ some k → raw ≡ as_str k
    sound raw k h =
        unfold from_storage in
        ground (
          arith,
          eq_bytes_iff raw (codes "put"),
          eq_bytes_iff raw (codes "append"),
          eq_bytes_iff raw (codes "delete_intent"),
          eq_bytes_iff raw (codes "delete_commit"),
          eq_bytes_iff raw (codes "delete_commit_failed"),
          eq_bytes_iff raw (codes "format"),
        )

    reads : (k : AuditEventKind) → from_storage (as_str k) ≡ some k
    reads put = unfold from_storage eq_bytes in refl
    reads append = unfold from_storage eq_bytes in refl
    reads delete_intent = unfold from_storage eq_bytes in refl
    reads delete_commit = unfold from_storage eq_bytes in refl
    reads delete_commit_failed = unfold from_storage eq_bytes in refl
    reads format = unfold from_storage eq_bytes in refl

    complete : (raw : Bytes) (k : AuditEventKind) → raw ≡ as_str k → from_storage raw ≡ some k
    complete raw k e = ap from_storage e ∙ reads k
