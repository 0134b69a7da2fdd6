-- ===== src/Ledger/Growth.antt =====
-- What an append of core/src/ledger.rs leaves in the delete ledger.
use audite_db.Prelude.{
  ℕ, ◌≡◌, refl, sym, ap, ◌∙◌, subst, inl, inr, none, some, Result, ok, err, Result-cases,
  Option-cases, arith,
}
use audite_db.Prelude.Text.{Bytes}
use audite_db.Timeline.{Crypto}
use audite_db.Audit.Events.{AuditEventKind}
use audite_db.Audit.Retention.{WorldDb}
use audite_db.Audit.Access.{AuditError}
use audite_db.Storage.{reserve_audit_events}
use audite_db.Ledger.{
  AuditAppendJob, BlockingSqliteError, audit, counter_capacity, AppendedLedgerEvent, LedgerWriter,
  Attempt, LedgerState, connect, append_rows, append, append_ledger_event_and_notify,
}
use audite_db.Ledger.Rows.{Wrote, append_rows-Wrote}

connect-db : (t : Attempt) (w v : LedgerWriter) → connect t w ≡ ok v → v.db ≡ w.db
connect-db t w v h = ground arith

-- An append that is accepted grows the ledger by its event; one that is refused leaves its rows.
pub record Attempted (kind : AuditEventKind) (world : Bytes) (db db' : WorldDb)
    (outcome : Result BlockingSqliteError AppendedLedgerEvent) : Type 0 where
  pub accepted :
      (event : AppendedLedgerEvent)
      → outcome ≡ ok event
      → Wrote kind world db db' × (event.event_type ≡ kind)
  pub refused : (e : BlockingSqliteError) → outcome ≡ err e → db' ≡ db

abbrev ResultOf : Type 0
ResultOf = Result BlockingSqliteError AppendedLedgerEvent × LedgerWriter

-- The append by what it comes to.
append-connect_err :
    (c : Crypto) (key : Bytes) (t : Attempt) (job : AuditAppendJob) (w : LedgerWriter)
    (e : BlockingSqliteError)
    → connect t w ≡ err e
    → append c key t job w ≡ (err e, w)
unfolding append
append-connect_err c key t job w e h = ground arith

append-rows_err :
    (c : Crypto) (key : Bytes) (t : Attempt) (job : AuditAppendJob) (w v : LedgerWriter)
    (e : AuditError)
    → connect t w ≡ ok v
    → append_rows c key t job v.db ≡ err e
    → append c key t job w ≡ (err (audit e), v)
unfolding append
append-rows_err c key t job w v e h k = ground arith

append-rows_ok :
    (c : Crypto) (key : Bytes) (t : Attempt) (job : AuditAppendJob) (w v : LedgerWriter)
    (event : AppendedLedgerEvent) (after : WorldDb)
    → connect t w ≡ ok v
    → append_rows c key t job v.db ≡ ok (event, after)
    → append c key t job w
      ≡ (ok event, record { connected = v.connected; inits = v.inits; db = after })
unfolding append
append-rows_ok c key t job w v event after h k = ground arith

append-Attempted :
    (c : Crypto) (key : Bytes) (t : Attempt) (job : AuditAppendJob) (w : LedgerWriter)
    → Attempted job.event.kind job.event.target w.db
        ((append c key t job w).1.db)
        ((append c key t job w).0)
append-Attempted c key t job w = elim (Result-cases (connect t w)) [
  | inr (e, h) ↦
      subst (λ p. Attempted job.event.kind job.event.target w.db (p.1.db) (p.0))
        (sym (append-connect_err c key t job w e h))
        (record { accepted = λ event x. cc; refused = λ x y. refl })
  | inl (v, h) ↦ elim (Result-cases (append_rows c key t job v.db)) [
    | inr (e, k) ↦
        subst (λ p. Attempted job.event.kind job.event.target w.db (p.1.db) (p.0))
          (sym (append-rows_err c key t job w v e h k))
          (record { accepted = λ event x. cc; refused = λ x y. connect-db t w v h })
    | inl ((event, after), k) ↦
        let (wrote, kind) = append_rows-Wrote c key t job v.db event after k in
        subst (λ p. Attempted job.event.kind job.event.target w.db (p.1.db) (p.0))
          (sym (append-rows_ok c key t job w v event after h k))
          (record {
            accepted = λ other x. (
              subst (λ d. Wrote job.event.kind job.event.target d after) (connect-db t w v h) wrote,
              (let same : event ≡ other = cc in ap (λ y. y.event_type) (sym same) ∙ kind),
            );
            refused = λ x y. cc;
          })
  ]
]

notify-full :
    (c : Crypto) (key : Bytes) (t : Attempt) (job : AuditAppendJob) (l : LedgerState)
    → reserve_audit_events l.audit_events ≡ none
    → append_ledger_event_and_notify c key t job l ≡ (err counter_capacity, l)
unfolding append_ledger_event_and_notify
notify-full c key t job l h = ground arith

notify-room :
    (c : Crypto) (key : Bytes) (t : Attempt) (job : AuditAppendJob) (l : LedgerState) (reserved : ℕ)
    → reserve_audit_events l.audit_events ≡ some reserved
    → ((append_ledger_event_and_notify c key t job l).0 ≡ (append c key t job l.writer).0)
      × ((append_ledger_event_and_notify c key t job l).1.writer ≡ (append c key t job l.writer).1)
unfolding append_ledger_event_and_notify
notify-room c key t job l reserved h = elim (Result-cases ((append c key t job l.writer).0)) [
  | inl (event, e) ↦ ground arith
  | inr (x, e) ↦ ground arith
]

-- The same of the append with its reservation and its notifications.
pub notify-Attempted :
    (c : Crypto) (key : Bytes) (t : Attempt) (job : AuditAppendJob) (l : LedgerState)
    → Attempted job.event.kind job.event.target l.writer.db
        ((append_ledger_event_and_notify c key t job l).1.writer.db)
        ((append_ledger_event_and_notify c key t job l).0)
notify-Attempted c key t job l = elim (Option-cases (reserve_audit_events l.audit_events)) [
  | inl full ↦
      subst (λ p. Attempted job.event.kind job.event.target l.writer.db (p.1.writer.db) (p.0))
        (sym (notify-full c key t job l full))
        (record { accepted = λ event x. cc; refused = λ x y. refl })
  | inr (reserved, room) ↦
      let (same, writer) = notify-room c key t job l reserved room in
      subst
        (λ o.
          Attempted job.event.kind job.event.target l.writer.db
            ((append_ledger_event_and_notify c key t job l).1.writer.db) o)
        (sym same)
        (subst
          (λ w.
            Attempted job.event.kind job.event.target l.writer.db w.db
              ((append c key t job l.writer).0))
          (sym writer) (append-Attempted c key t job l.writer))
]
