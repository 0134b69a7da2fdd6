-- ===== src/Delete/Conclusions.antt =====
-- How a delete ends once its intent is in the ledger: core/src/delete_ops.rs.
use audite_db.Prelude.{
  ◌≡◌, ◌≢◌, refl, sym, subst, not, ◌||◌, inl, inr, true, false, Result, ok, err, arith,
  Result-cases,
}
use audite_db.Prelude.Text.{Bytes}
use audite_db.Timeline.{Crypto}
use audite_db.Audit.Events.{AuditEventKind, delete_intent, delete_commit, delete_commit_failed}
use audite_db.Audit.Retention.{WorldDb}
use audite_db.Ledger.{
  AppendedLedgerEvent, BlockingSqliteError, LedgerState, append_ledger_event_and_notify,
}
use audite_db.Ledger.Growth.{Attempted, notify-Attempted}
use audite_db.Ledger.Rows.{has_event, Extends, Extends-refl, Extends-trans}
use audite_db.Delete.{
  DeleteError, audit_commit_failed, delete_failed_after_intent, DeleteRequest, World, Core,
  Prepared, prepare, check_delete_preconditions, capture_delete_subject_proof, job_of, with_ledger,
}
use audite_db.Delete.Blocking.{settle, commit_delete}

abbrev pub ledger_db : Core → WorldDb
ledger_db s = s.ledger.writer.db

-- What a delete promises, by the ways that it can end.
pub record Promise (world : Bytes) (outcome : Result DeleteError (Unit {0})) (s s' : Core)
    : Type 0 where
  pub grown : Extends (ledger_db s) (ledger_db s')
  pub gone :
      s.present ≡ true → s'.present ≡ false → has_event delete_intent world (ledger_db s') ≡ true
  pub committed :
      outcome ≡ ok tt → (s'.present ≡ false) × (has_event delete_commit world (ledger_db s') ≡ true)
  pub uncommitted : outcome ≡ err audit_commit_failed → s'.present ≡ false
  pub halfway :
      outcome ≡ err delete_failed_after_intent
      → (has_event delete_intent world (ledger_db s') ≡ true)
        × ((s.present || not s'.present) ≡ true)
  pub unharmed :
      (e : DeleteError)
      → outcome ≡ err e
      → e ≢ audit_commit_failed
      → e ≢ delete_failed_after_intent
      → s'.present ≡ s.present
  pub readable : s.tombstone ≡ false → s'.tombstone ≡ false

pub prepare-early :
    (c : Crypto) (world : Bytes) (req : DeleteRequest) (w : World) (e : DeleteError)
    → prepare c world req w ≡ err e
    → (e ≢ audit_commit_failed) × (e ≢ delete_failed_after_intent)
unfolding prepare check_delete_preconditions capture_delete_subject_proof
prepare-early c world req w e h = (λ x. ground arith, λ x. ground arith)

pub settle-same :
    (world : Bytes) (p : Prepared) (s : Core)
    → (ledger_db (settle world p.usage s) ≡ ledger_db s)
      × ((settle world p.usage s).present ≡ s.present)
      × ((settle world p.usage s).tombstone ≡ s.tombstone)
unfolding settle
settle-same world p s = ground arith

pub attempt-Extends :
    (kind : AuditEventKind) (world : Bytes) (db db' : WorldDb)
    (o : Result BlockingSqliteError AppendedLedgerEvent)
    → Attempted kind world db db' o
    → Extends db db'
attempt-Extends kind world db db' (ok event) a = (a.accepted event refl).0.extends
attempt-Extends kind world db db' (err e) a =
    subst (Extends db) (sym (a.refused e refl)) (Extends-refl db)

-- What the commit of a delete leaves.
pub record Concluded (world : Bytes) (s : Core) (outcome : Result DeleteError (Unit {0}))
    (s' : Core) : Type 0 where
  pub grown : Extends (ledger_db s) (ledger_db s')
  pub recorded : outcome ≡ ok tt → has_event delete_commit world (ledger_db s') ≡ true
  pub failed : (e : DeleteError) → outcome ≡ err e → e ≡ audit_commit_failed
  pub same_present : s'.present ≡ s.present
  pub same_tombstone : s'.tombstone ≡ s.tombstone

module _ (c : Crypto) (key world : Bytes) (p : Prepared) (w : World) (s : Core) where
  abbrev attempted_commit : Result BlockingSqliteError AppendedLedgerEvent × LedgerState
  attempted_commit =
      append_ledger_event_and_notify c key w.at_commit (job_of delete_commit world p) s.ledger

  abbrev attempted_record : Result BlockingSqliteError AppendedLedgerEvent × LedgerState
  attempted_record =
      append_ledger_event_and_notify c key w.at_commit_failed (job_of delete_commit_failed world p)
        attempted_commit.1

  commit-ok :
      (event : AppendedLedgerEvent)
      → attempted_commit.0 ≡ ok event
      → commit_delete c key world p w s ≡ (ok tt, with_ledger s attempted_commit.1)
  unfolding commit_delete
  commit-ok event e = ground arith

  commit-err :
      (x : BlockingSqliteError)
      → attempted_commit.0 ≡ err x
      → commit_delete c key world p w s
        ≡ (err audit_commit_failed, with_ledger s attempted_record.1)
  unfolding commit_delete
  commit-err x e = ground arith

  pub commit_delete-Concluded :
      Concluded world s ((commit_delete c key world p w s).0) ((commit_delete c key world p w s).1)
  commit_delete-Concluded =
      let first = notify-Attempted c key w.at_commit (job_of delete_commit world p) s.ledger in
      let second =
        notify-Attempted c key w.at_commit_failed (job_of delete_commit_failed world p)
          attempted_commit.1 in
      elim (Result-cases attempted_commit.0) [
        | inl (event, e) ↦
            subst (λ q. Concluded world s q.0 q.1) (sym (commit-ok event e))
              (record {
                grown = attempt-Extends delete_commit world _ _ _ first;
                recorded = λ x. (first.accepted event e).0.written;
                failed = λ x y. cc;
                same_present = refl;
                same_tombstone = refl;
              })
        | inr (x, e) ↦
            subst (λ q. Concluded world s q.0 q.1) (sym (commit-err x e))
              (record {
                grown =
                    Extends-trans _ attempted_commit.1.writer.db _
                      (attempt-Extends delete_commit world _ _ _ first)
                      (attempt-Extends delete_commit_failed world _ _ _ second);
                recorded = λ y. cc;
                failed = λ y z. cc;
                same_present = refl;
                same_tombstone = refl;
              })
      ]
