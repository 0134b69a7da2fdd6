-- ===== src/WorldStore.antt =====
-- core/src/world.rs: the transactions of a world's database that write its body, read it and read its
-- metadata.
pub mod Openings
pub mod Outcomes
pub mod Committed
pub mod Usage
pub mod Windows
use audite_db.Prelude.{
  ℕ, ◌+◌, ◌≡◌, Bool, true, false, not, ◌&&◌, Option, none, some, List, [], ◌∷◌, ◌++◌, Result, ok,
  err, require, map_err, ok_or, ◌>>=◌, ◌>>◌, any, length, ◌==◌, if◌then◌else◌,
}
use audite_db.Prelude.Text.{Bytes, eq_bytes}
use audite_db.Timeline.{Crypto}
use audite_db.Audit.Events.{AuditEventKind, put, append, Header}
use audite_db.Audit.Frame.{sort_headers}
use audite_db.Audit.Retention.{StorageError, constraint_violation, WorldDb, index_shape, load_inner}
use audite_db.Audit.Verify.{Chain}
use audite_db.Audit.Access.{
  AuditError, Place, chain_of, stored, last_entry, read_generation, require_current_tail_intact,
  verify_appendable,
}
use audite_db.Audit.Append.{
  AppendedAuditRow, RetainedCasBody, append_format_tx, append_retained_body,
}
use audite_db.Cas.{
  WriteAuditError, audit, sqlite, in_sqlite, retain_body, mark_retention_started, prune_to_count,
}
use audite_db.Cas.Estimates.{read_body}

-- A world's database file: the tables that an audit reads, and the two that only a read returns.
pub record WorldFile : Type 0 where
  pub db : WorldDb
  pub content_type : Bytes
  pub meta_headers : List Header

pub data OpenedWorldKind : Type 0 where
  created existing : OpenedWorldKind

-- `AuditVerificationCache` of core/src/state.rs: the worlds whose chain has been walked whole.
abbrev pub AuditVerificationCache : Type 0
AuditVerificationCache = List Bytes

unfoldable pub is_verified : AuditVerificationCache → Bytes → Bool
is_verified cache world = any (eq_bytes world) cache

unfoldable pub mark_verified : Bytes → AuditVerificationCache → AuditVerificationCache
unfolding is_verified
mark_verified world cache = if is_verified cache world then cache else world ∷ cache

unfoldable pub unmark : Bytes → AuditVerificationCache → AuditVerificationCache
unmark world [] = []
unmark world (w ∷ cache) =
    let rest = unmark world cache in if eq_bytes world w then rest else w ∷ rest

abbrev is_nil {ℓ} : {A : Type ℓ} → List A → Bool
is_nil [] = true
is_nil (a ∷ l) = false

abbrev is_empty_body : Option Bytes → Bool
is_empty_body none = false
is_empty_body (some body) = length body == 0

unfoldable pub is_empty_bootstrap : WorldFile → Bool
is_empty_bootstrap f =
    is_nil f.db.events
    && is_nil f.db.event_headers
    && is_nil f.meta_headers
    && is_empty_body f.db.stage_body

-- `AuditChainOpening`, true for a genesis
unfoldable pub audit_chain_opening : WorldFile → OpenedWorldKind → Bool
unfolding is_empty_bootstrap
audit_chain_opening f created = true
audit_chain_opening f existing = is_empty_bootstrap f

-- `verify_appendable_tx_existing_tail_checked` of core/src/audit.rs
unfoldable pub verify_appendable_tail : Crypto → Place → WorldDb → Result AuditError Chain
verify_appendable_tail c p db = do
  generation ← stored (read_generation db)
  retention ← stored (load_inner c db index_shape)
  require_current_tail_intact c p db
  ok (chain_of p generation)

-- What the gate of an append has found: the chain, whether it opens with a genesis, and whether the
-- chain has now been walked whole.
pub record Opening : Type 0 where
  pub chain : Chain
  pub is_genesis : Bool
  pub walked : Bool

unfoldable pub verify_appendable_world :
    Crypto
    → Place
    → AuditVerificationCache
    → WorldFile
    → OpenedWorldKind
    → Result WriteAuditError Opening
unfolding audit_chain_opening verify_appendable_tail
verify_appendable_world c p cache f opened =
    if audit_chain_opening f opened
    then (do
      chain ← map_err audit (verify_appendable c p f.db true)
      ok (record { chain = chain; is_genesis = true; walked = true }))
    else if is_verified cache p.world
    then (do
      chain ← map_err audit (verify_appendable_tail c p f.db)
      ok (record { chain = chain; is_genesis = false; walked = false }))
    else do
      chain ← map_err audit (verify_appendable c p f.db false)
      ok (record { chain = chain; is_genesis = false; walked = true })

-- What SQLite's clock gives for the two events.
pub record Times : Type 0 where
  pub format_at : Bytes
  pub body_at : Bytes

abbrev pub open_format :
    Crypto → Opening → Bytes → WorldDb → Result WriteAuditError (Option AppendedAuditRow × WorldDb)
open_format c o at db =
    if o.is_genesis
    then (do
      appended ← in_sqlite (append_format_tx c o.chain at db)
      ok (some appended.0, appended.1))
    else ok (none, db)

-- `UPDATE stage_meta SET body`
abbrev pub set_body : Bytes → WorldDb → WorldDb
set_body body db = record {
  generation = db.generation;
  events = db.events;
  event_headers = db.event_headers;
  last_rowid = db.last_rowid;
  first_retained = db.first_retained;
  cas_bodies = db.cas_bodies;
  stage_body = some body;
}

-- `INSERT INTO meta_headers`, whose names are a primary key
unfoldable pub insert_headers : List Header → List Header → Result StorageError (List Header)
insert_headers [] inserted = ok inserted
insert_headers (h ∷ headers) inserted = do
  require (not (any (λ k. eq_bytes h.0 k.0) inserted)) constraint_violation
  insert_headers headers (inserted ++ h ∷ [])

-- `WriteAuditResult` and `AppendAuditResult`
pub record WriteAuditResult : Type 0 where
  pub cas_body_inserted : Bool
  pub pruned_cas : ℕ
  pub format_event : Option AppendedAuditRow
  pub body_event : AppendedAuditRow
  pub existed : Bool

-- The end of a transaction, which both writes share: the event of the retained body, the start of the
-- retention, and the prune.
unfoldable pub finish_body :
    Crypto
    → Chain
    → ℕ
    → AuditEventKind
    → Bytes
    → RetainedCasBody
    → Bytes
    → List Header
    → WorldDb
    → Result WriteAuditError (ℕ × AppendedAuditRow × WorldDb)
finish_body c chain retained_count kind at retained content_type headers db = do
  row ← in_sqlite (append_retained_body c chain at kind retained content_type headers db)
  marked ← mark_retention_started row.0.id row.1
  pruned ← prune_to_count retained_count marked
  ok (pruned.0, row.0, pruned.1)

abbrev pub existed_before : OpenedWorldKind → Bool
existed_before created = false
existed_before existing = true

abbrev pub after_gate : Opening → Bytes → AuditVerificationCache → AuditVerificationCache
after_gate o world cache = if o.walked then mark_verified world cache else cache

-- `write_with_audit_checked_retaining_on_conn`: the result, and the file and the cache after the
-- commit. An error drops the transaction.
unfoldable pub write_with_audit :
    Crypto
    → Place
    → ℕ
    → Times
    → OpenedWorldKind
    → Bytes
    → Bytes
    → List Header
    → AuditVerificationCache
    → WorldFile
    → Result WriteAuditError (WriteAuditResult × WorldFile × AuditVerificationCache)
unfolding verify_appendable_world finish_body insert_headers
write_with_audit c p retained_count t opened body content_type headers cache f = do
  o ← verify_appendable_world c p cache f opened
  formatted ← open_format c o t.format_at f.db
  retained ← retain_body c p.world body formatted.1
  inserted ← in_sqlite (insert_headers headers [])
  finished ←
      finish_body c o.chain retained_count put t.body_at retained.0 content_type headers
        (set_body body retained.2)
  ok (
    (record {
      cas_body_inserted = retained.1;
      pruned_cas = finished.0;
      format_event = formatted.0;
      body_event = finished.1;
      existed = existed_before opened;
    }),
    (record { db = finished.2; content_type = content_type; meta_headers = inserted }),
    after_gate o p.world cache,
  )

-- `append_with_audit_retaining_on_conn`
unfoldable pub append_with_audit :
    Crypto
    → Place
    → ℕ
    → Times
    → Bytes
    → Bytes
    → List Header
    → AuditVerificationCache
    → WorldFile
    → Result WriteAuditError (WriteAuditResult × WorldFile × AuditVerificationCache)
unfolding verify_appendable_world finish_body
append_with_audit c p retained_count t body content_type headers cache f = do
  o ← verify_appendable_world c p cache f existing
  formatted ← open_format c o t.format_at f.db
  current ← in_sqlite (read_body formatted.1)
  retained ← retain_body c p.world (current ++ body) formatted.1
  finished ←
      finish_body c o.chain retained_count append t.body_at retained.0 content_type headers
        (set_body (current ++ body) retained.2)
  ok (
    (record {
      cas_body_inserted = retained.1;
      pruned_cas = finished.0;
      format_event = formatted.0;
      body_event = finished.1;
      existed = true;
    }),
    (record { db = finished.2; content_type = f.content_type; meta_headers = f.meta_headers }),
    after_gate o p.world cache,
  )

-- `metadata`: the length of the body, the content type, and the headers in the order of their names
unfoldable pub metadata : Option WorldFile → Result StorageError (Option (ℕ × Bytes × List Header))
metadata none = ok none
metadata (some f) = do
  body ← read_body f.db
  ok (some (length body, f.content_type, sort_headers f.meta_headers))

pub record Stage : Type 0 where
  pub body : Bytes
  pub content_type : Bytes
  pub headers : List Header

-- `read_with_hmac_via_conn`
unfoldable pub read_with_hmac :
    Crypto → Place → WorldFile → Result AuditError (Stage × Option Bytes)
read_with_hmac c p f = do
  require_current_tail_intact c p f.db
  body ← stored (read_body f.db)
  ok (
    (record { body = body; content_type = f.content_type; headers = sort_headers f.meta_headers }),
    (elim (last_entry f.db.events) [ none ↦ none | some row ↦ some row.hmac ]),
  )
