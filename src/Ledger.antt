-- ===== src/Ledger.antt =====
-- core/src/ledger.rs: the writer of the delete ledger, and the append with its notifications in
-- core/src/delete_ops.rs.
pub mod Rows
pub mod Growth
use audite_db.Prelude.{
  ℕ, ◌+◌, ◌-◌, ◌≡◌, Bool, true, false, Option, none, some, List, [], ◌∷◌, ◌++◌, Result, ok, err,
  length, ◌==◌, if◌then◌else◌,
}
use audite_db.Prelude.Text.{Bytes}
use audite_db.Prelude.Int.{ℤ}
use audite_db.Timeline.{Crypto}
use audite_db.Auth.{delete_ledger_world_name}
use audite_db.Audit.Events.{AuditEventKind, delete_intent}
use audite_db.Audit.Headers.{AuditHeaders, DeleteSubjectProof}
use audite_db.Audit.Retention.{StorageError, WorldDb}
use audite_db.Audit.Access.{AuditError, Place}
use audite_db.Audit.Append.{NewEvent, AppendedAuditRow, append_existing, append_genesis}
use audite_db.Storage.{reserve_audit_events, commit_one, commit_two, drop_events}

pub record AuditAppendJob : Type 0 where
  pub event : NewEvent
  pub headers : AuditHeaders

pub data BlockingSqliteError : Type 0 where
  audit : AuditError → BlockingSqliteError
  sqlite : StorageError → BlockingSqliteError
  counter_capacity worker : BlockingSqliteError

pub record AppendedLedgerEvent : Type 0 where
  pub event_type : AuditEventKind
  pub target : Bytes
  pub event_id : ℤ
  pub body_sha256 : Bytes
  pub size : ℤ
  pub content_type : Bytes
  pub delete_subject : Option DeleteSubjectProof
  pub hmac : Bytes
  pub format_event : Option AppendedAuditRow

-- `LedgerWriter`, with the file that its connection is to.
pub record LedgerWriter : Type 0 where
  pub connected : Bool
  pub inits : ℕ
  pub db : WorldDb

-- What the file and the clock do in one append.
pub record Attempt : Type 0 where
  pub open_failure : Option StorageError
  pub started_at : Bytes
  pub now : Bytes

-- The lazy initialisation of `append`.
abbrev pub connect : Attempt → LedgerWriter → Result BlockingSqliteError LedgerWriter
connect a w = if w.connected then ok w else elim a.open_failure [
  | some e ↦ err (sqlite e)
  | none ↦ ok (record { connected = true; inits = w.inits + 1; db = w.db })
]

abbrev pub ledger_place : Bytes → Place
ledger_place key = record { key = key; world = delete_ledger_world_name }

abbrev pub ledger_event :
    AuditAppendJob → AppendedAuditRow → Option AppendedAuditRow → AppendedLedgerEvent
ledger_event job row format_event = record {
  event_type = row.event.kind;
  target = row.event.target;
  event_id = row.id;
  body_sha256 = row.event.body_sha256;
  size = row.event.size;
  content_type = row.event.content_type;
  delete_subject = job.headers.delete_subject;
  hmac = row.hmac;
  format_event = format_event;
}

-- The append proper: the first row of an empty ledger is preceded by the format row.
unfoldable pub append_rows :
    Crypto
    → Bytes
    → Attempt
    → AuditAppendJob
    → WorldDb
    → Result AuditError (AppendedLedgerEvent × WorldDb)
append_rows c key a job db =
    if length db.events == 0
    then (elim (append_genesis c (ledger_place key) a.started_at a.now job.event job.headers db) [
      | err e ↦ err e
      | ok (format_row, row, after) ↦ ok (ledger_event job row (some format_row), after)
    ])
    else elim (append_existing c (ledger_place key) a.now job.event job.headers db) [
      | err e ↦ err e
      | ok (row, after) ↦ ok (ledger_event job row none, after)
    ]

-- `LedgerWriter::append`: a connection that was opened stays, whatever the append gives.
unfoldable pub append :
    Crypto
    → Bytes
    → Attempt
    → AuditAppendJob
    → LedgerWriter
    → Result BlockingSqliteError AppendedLedgerEvent × LedgerWriter
unfolding append_rows
append c key a job w = elim (connect a w) [
  | err e ↦ (err e, w)
  | ok opened ↦ elim (append_rows c key a job opened.db) [
    | err e ↦ (err (audit e), opened)
    | ok (event, after) ↦
        (ok event, record { connected = opened.connected; inits = opened.inits; db = after })
  ]
]

abbrev pub as_delete_intent : AppendedLedgerEvent → Bool
as_delete_intent event = elim event.event_type [ delete_intent ↦ true | _ ↦ false ]

-- What subscribers are told of.
pub data Notice : Type 0 where
  format_notice : ℤ → Bytes → Notice
  ledger_notice : AuditEventKind → ℤ → Bytes → Notice
  deleted_notice : Bytes → ℤ → Option DeleteSubjectProof → Notice

-- The part of `Core` that ledger appends change.
pub record LedgerState : Type 0 where
  pub writer : LedgerWriter
  pub audit_events : ℕ
  pub notices : List Notice

-- `notify_ledger_event`
abbrev pub notices_of : AppendedLedgerEvent → List Notice
notices_of event = elim event.format_event [
  | none ↦ ledger_notice event.event_type event.event_id event.hmac ∷ []
  | some f ↦
      format_notice f.id f.hmac ∷ ledger_notice event.event_type event.event_id event.hmac ∷ []
]

-- `append_ledger_event_and_notify`: two events are reserved, and one, both or none are kept.
unfoldable pub append_ledger_event_and_notify :
    Crypto
    → Bytes
    → Attempt
    → AuditAppendJob
    → LedgerState
    → Result BlockingSqliteError AppendedLedgerEvent × LedgerState
unfolding append
append_ledger_event_and_notify c key a job s = elim (reserve_audit_events s.audit_events) [
  | none ↦ (err counter_capacity, s)
  | some reserved ↦
      let (outcome, w) = append c key a job s.writer in
      elim outcome [
        | err e ↦
            (err e, record { writer = w; audit_events = drop_events reserved; notices = s.notices })
        | ok event ↦ (
          ok event,
          record {
            writer = w;
            audit_events = elim event.format_event [
              | none ↦ commit_one reserved
              | some f ↦ commit_two reserved
            ];
            notices = s.notices ++ notices_of event;
          },
        )
      ]
]
