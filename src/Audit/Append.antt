-- ===== src/Audit/Append.antt =====
-- core/src/audit/append.rs: appending a signed event to the chain that has just been verified.
pub mod Entries
pub mod RoundTrip
use audite_db.Prelude.{
  ℕ, ◌+◌, ◌≡◌, refl, Bool, true, false, not, Option, none, some, List, [], ◌∷◌, ◌++◌, map, Result,
  ok, err, require, map_err, ok_or, ◌>>=◌, ◌>>◌, ltb, if◌then◌else◌,
}
use audite_db.Prelude.Text.{Bytes, codes, eq_bytes}
use audite_db.Prelude.Int.{ℤ, pos}
use audite_db.Prelude.Decimal.{decimal}
use audite_db.Prelude.Parse.{i64_max}
use audite_db.Timeline.{Crypto, body_sha256_for, timeline_seq}
use audite_db.Audit.Events.{AuditEventKind, format, as_str, from_kind, EventRow, Header, Entry}
use audite_db.Audit.Frame.{
  event_hmac, meta_sha256_canonical, is_canonical_sqlite_utc_timestamp, canonical_headers,
}
use audite_db.Audit.Headers.{AuditHeaders, to_storage_pairs}
use audite_db.Audit.Retention.{
  StorageError, invalid_parameter_name, invalid_query, sqlite_full, WorldDb,
}
use audite_db.Audit.Verify.{
  Chain, row_input, world_format_version_header, current_world_format_version,
}
use audite_db.Audit.Access.{AuditError, Place, stored, last_entry, verify_appendable}

-- What an event is to record.
pub record NewEvent : Type 0 where
  pub kind : AuditEventKind
  pub target : Bytes
  pub body_sha256 : Bytes
  pub size : ℤ
  pub content_type : Bytes
  pub headers : List Header

pub record AppendedAuditRow : Type 0 where
  pub world : Bytes
  pub id : ℤ
  pub hmac : Bytes
  pub generation : Bytes
  pub event : NewEvent

-- `SELECT hmac FROM events ORDER BY id DESC LIMIT 1`, or the empty string
unfoldable pub latest_hmac : List EventRow → Bytes
latest_hmac events = elim (last_entry events) [ none ↦ [] | some row ↦ row.hmac ]

-- The row that `append_tx_inner` inserts under a row id, with its headers.
abbrev pub unsigned_row : Crypto → Bytes → Bytes → ℤ → NewEvent → EventRow
unsigned_row c now prev id e = record {
  id = id;
  timestamp = now;
  event_type = as_str e.kind;
  target = e.target;
  body_sha256 = e.body_sha256;
  size = e.size;
  content_type = e.content_type;
  meta_sha256 = meta_sha256_canonical c e.content_type (canonical_headers e.headers);
  hmac = [];
  prev_hmac = prev;
}

abbrev sign : Bytes → EventRow → EventRow
sign h row = record {
  id = row.id;
  timestamp = row.timestamp;
  event_type = row.event_type;
  target = row.target;
  body_sha256 = row.body_sha256;
  size = row.size;
  content_type = row.content_type;
  meta_sha256 = row.meta_sha256;
  hmac = h;
  prev_hmac = row.prev_hmac;
}

unfoldable pub signed_row : Crypto → Chain → Bytes → Bytes → ℤ → NewEvent → EventRow
signed_row c chain now prev id e =
    let row = unsigned_row c now prev id e in
    sign (event_hmac c chain.key (row_input chain.world chain.generation prev row)) row

-- The two `INSERT`s: the row at the end, under the next row id, and its headers.
unfoldable pub insert_event : WorldDb → EventRow → List Header → WorldDb
insert_event db row headers = record {
  generation = db.generation;
  events = db.events ++ row ∷ [];
  event_headers = db.event_headers ++ map (λ h. (row.id, h.0, h.1)) headers;
  last_rowid = 1 + db.last_rowid;
  first_retained = db.first_retained;
  cas_bodies = db.cas_bodies;
  stage_body = db.stage_body;
}

-- `append_tx_inner`, at SQLite's time `now`
unfoldable pub append_tx :
    Crypto → Chain → Bytes → NewEvent → WorldDb → Result StorageError (AppendedAuditRow × WorldDb)
unfolding signed_row insert_event
append_tx c chain now e db = do
  require (is_canonical_sqlite_utc_timestamp now)
      (invalid_parameter_name (codes "invalid audit timestamp: " ++ now))
  require (ltb db.last_rowid i64_max) sqlite_full
  let row = signed_row c chain now (latest_hmac db.events) (pos (1 + db.last_rowid)) e
  id ← map_err (λ x. invalid_query) (timeline_seq row.id)
  ok (
    (record {
      world = chain.world;
      id = id;
      hmac = row.hmac;
      generation = chain.generation;
      event = e;
    }),
    insert_event db row (canonical_headers e.headers),
  )

-- `append_format_tx_row`
abbrev pub format_event : Crypto → Bytes → NewEvent
format_event c world = record {
  kind = format;
  target = world;
  body_sha256 = body_sha256_for c [];
  size = pos 0;
  content_type = [];
  headers = (world_format_version_header, decimal current_world_format_version) ∷ [];
}

unfoldable pub append_format_tx :
    Crypto → Chain → Bytes → WorldDb → Result StorageError (AppendedAuditRow × WorldDb)
append_format_tx c chain now db = append_tx c chain now (format_event c chain.world) db

-- `headers.to_storage_pairs()`
abbrev pub with_headers : NewEvent → AuditHeaders → NewEvent
with_headers e headers = record {
  kind = e.kind;
  target = e.target;
  body_sha256 = e.body_sha256;
  size = e.size;
  content_type = e.content_type;
  headers = to_storage_pairs headers;
}

-- `append_with_conn_existing_row`: the transaction is committed with its result, and dropped with
-- its error.
unfoldable pub append_existing :
    Crypto
    → Place
    → Bytes
    → NewEvent
    → AuditHeaders
    → WorldDb
    → Result AuditError (AppendedAuditRow × WorldDb)
append_existing c p now e headers db = do
  chain ← verify_appendable c p db false
  stored (append_tx c chain now (with_headers e headers) db)

-- `append_with_conn_genesis_row`
unfoldable pub append_genesis :
    Crypto
    → Place
    → Bytes
    → Bytes
    → NewEvent
    → AuditHeaders
    → WorldDb
    → Result AuditError (AppendedAuditRow × AppendedAuditRow × WorldDb)
append_genesis c p started_at now e headers db = do
  chain ← verify_appendable c p db true
  started ← stored (append_format_tx c chain started_at db)
  appended ← stored (append_tx c chain now (with_headers e headers) started.1)
  ok (started.0, appended.0, appended.1)

-- A body that world/cas.rs has put into the table of this transaction.
pub record RetainedCasBody : Type 0 where
  pub target : Bytes
  pub body_sha256 : Bytes
  pub size : ℤ

-- `append_retained_body_tx_row`, of a body retained in this transaction
unfoldable pub append_retained_body :
    Crypto
    → Chain
    → Bytes
    → AuditEventKind
    → RetainedCasBody
    → Bytes
    → List Header
    → WorldDb
    → Result StorageError (AppendedAuditRow × WorldDb)
append_retained_body c chain now kind retained content_type headers db = do
  require (eq_bytes retained.target chain.world) invalid_query
  append_tx c chain now
      (record {
        kind = kind;
        target = retained.target;
        body_sha256 = retained.body_sha256;
        size = retained.size;
        content_type = content_type;
        headers = headers;
      })
      db
