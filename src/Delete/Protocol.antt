-- ===== src/Delete/Protocol.antt =====
-- The order of the writes in `delete_blocking` of core/src/delete_ops.rs: the intent before the
-- removal, the commit after it, and readers let in again whatever happens.
use audite_db.Prelude.{
  ◌≡◌, refl, sym, ap, ◌∙◌, subst, inl, inr, Bool, true, false, not, ◌&&◌, ◌||◌, ◌≢◌, Result, ok,
  err, arith, Bool-cases, Result-cases, if◌then◌else◌,
}
use audite_db.Prelude.Text.{Bytes}
use audite_db.Timeline.{Crypto}
use audite_db.Audit.Events.{delete_intent, delete_commit}
use audite_db.Ledger.{
  AppendedLedgerEvent, BlockingSqliteError, LedgerState, as_delete_intent,
  append_ledger_event_and_notify,
}
use audite_db.Ledger.Growth.{notify-Attempted}
use audite_db.Ledger.Rows.{has_event, Extends, Extends-refl, Extends-trans, has_event-Extends}
use audite_db.Delete.{
  DeleteError, delete_failed_after_intent, audit_commit_failed, audit_intent,
  reserved_metadata_header, invalid_metadata, not_found, precondition_failed, read_failed,
  subject_missing_head, shutting_down, internal_invariant, DeleteRequest, World, Core, Prepared,
  prepare, job_of, with_ledger, remove_files, clear_tombstone,
}
use audite_db.Delete.Blocking.{settle, notify_deleted, commit_delete, after_intent, delete_blocking}
use audite_db.Delete.Conclusions.{
  ledger_db, Promise, prepare-early, settle-same, attempt-Extends, commit_delete-Concluded,
}

is_intent :
    (event : AppendedLedgerEvent) → event.event_type ≡ delete_intent → as_delete_intent event ≡ true
is_intent event e = ground arith

module _ (c : Crypto) (key world : Bytes) (req : DeleteRequest) (w : World) (s : Core) where
  delete-early :
      (e : DeleteError)
      → prepare c world req w ≡ err e
      → delete_blocking c key world req w s ≡ (err e, s)
  unfolding delete_blocking
  delete-early e h = ground arith

  module _ (p : Prepared) (ready : prepare c world req w ≡ ok p) where
    abbrev attempted_intent : Result BlockingSqliteError AppendedLedgerEvent × LedgerState
    attempted_intent =
        append_ledger_event_and_notify c key w.at_intent (job_of delete_intent world p) s.ledger

    abbrev intended : Core
    intended = with_ledger s attempted_intent.1

    abbrev without_files : Core
    without_files = clear_tombstone (remove_files w intended)

    abbrev told : AppendedLedgerEvent → Core
    told event = notify_deleted world event (settle world p.usage without_files)

    delete-no_intent :
        (x : BlockingSqliteError)
        → attempted_intent.0 ≡ err x
        → delete_blocking c key world req w s ≡ (err (audit_intent x), intended)
    unfolding delete_blocking
    delete-no_intent x e = ground arith

    delete-kept :
        (event : AppendedLedgerEvent)
        → attempted_intent.0 ≡ ok event
        → w.removed ≡ false
        → delete_blocking c key world req w s ≡ (err delete_failed_after_intent, without_files)
    unfolding delete_blocking after_intent
    delete-kept event e r = ground arith

    delete-removed :
        (event : AppendedLedgerEvent)
        → attempted_intent.0 ≡ ok event
        → w.removed ≡ true
        → as_delete_intent event ≡ true
        → delete_blocking c key world req w s ≡ commit_delete c key world p w (told event)
    unfolding delete_blocking after_intent
    delete-removed event e r i = ground arith

    told-same :
        (event : AppendedLedgerEvent)
        → w.removed ≡ true
        → (ledger_db (told event) ≡ attempted_intent.1.writer.db)
          × ((told event).present ≡ false)
          × ((told event).tombstone ≡ false)
    unfolding remove_files
    told-same event r =
        let (a, b, d) = settle-same world p without_files in
        (a, b ∙ ap (λ x. if x then false else s.present && w.left) r, d)

    apart : delete_failed_after_intent ≢ audit_commit_failed
    apart e = cc

    kept_only :
        w.removed ≡ false
        → (s.present || not (if w.removed then false else s.present && w.left)) ≡ true
    kept_only stays = ground arith

    ready-Promise :
        Promise world
          ((delete_blocking c key world req w s).0)
          s
          ((delete_blocking c key world req w s).1)
    unfolding remove_files
    ready-Promise =
        let tried = notify-Attempted c key w.at_intent (job_of delete_intent world p) s.ledger in
        let first = attempt-Extends delete_intent world _ _ _ tried in
        elim (Result-cases attempted_intent.0) [
          | inr (x, e) ↦
              subst (λ q. Promise world q.0 s q.1) (sym (delete-no_intent x e))
                (record {
                  grown = first;
                  gone = λ a b. cc;
                  committed = λ h. cc;
                  uncommitted = λ h. cc;
                  halfway = λ h. cc;
                  unharmed = λ y h n m. refl;
                  readable = λ h. h;
                })
          | inl (event, e) ↦
              let (wrote, kind) = tried.accepted event e in
              elim (Bool-cases w.removed) [
                | inr stays ↦
                    subst (λ q. Promise world q.0 s q.1) (sym (delete-kept event e stays))
                      (record {
                        grown = first;
                        gone = λ a b. wrote.written;
                        committed = λ h. cc;
                        uncommitted = λ h. cc;
                        halfway = λ h. (wrote.written, kept_only stays);
                        unharmed = λ y h n m. absurd (m (cc));
                        readable = λ h. refl;
                      })
                | inl leaves ↦
                    let end = commit_delete-Concluded c key world p w (told event) in
                    let (ledger, present, tombstone) = told-same event leaves in
                    let later =
                      subst
                        (λ d.
                          Extends d (ledger_db ((commit_delete c key world p w (told event)).1)))
                        ledger end.grown in
                    subst (λ q. Promise world q.0 s q.1)
                      (sym (delete-removed event e leaves (is_intent event kind)))
                      (record {
                        grown = Extends-trans _ attempted_intent.1.writer.db _ first later;
                        gone = λ a b. has_event-Extends delete_intent world _ _ later wrote.written;
                        committed = λ h. (end.same_present ∙ present, end.recorded h);
                        uncommitted = λ h. end.same_present ∙ present;
                        halfway = λ h. absurd (apart (end.failed delete_failed_after_intent h));
                        unharmed = λ y h n m. absurd (n (end.failed y h));
                        readable = λ h. end.same_tombstone ∙ tombstone;
                      })
              ]
        ]

delete_blocking-Promise :
    (c : Crypto) (key world : Bytes) (req : DeleteRequest) (w : World) (s : Core)
    → Promise world
        ((delete_blocking c key world req w s).0)
        s
        ((delete_blocking c key world req w s).1)
delete_blocking-Promise c key world req w s = elim (Result-cases (prepare c world req w)) [
  | inl (p, ready) ↦ ready-Promise c key world req w s p ready
  | inr (e, h) ↦
      subst (λ q. Promise world q.0 s q.1) (sym (delete-early c key world req w s e h))
        (record {
          grown = Extends-refl (ledger_db s);
          gone = λ a b. cc;
          committed = λ x. cc;
          uncommitted = λ x. absurd ((prepare-early c world req w e h).0 (cc));
          halfway = λ x. absurd ((prepare-early c world req w e h).1 (cc));
          unharmed = λ y x n m. refl;
          readable = λ x. x;
        })
]

-- What the caller may conclude from the answer.
abbrev pub Answer : Bytes → Result DeleteError (Unit {0}) → Core → Core → Type 0
Answer world (ok u) s s' =
    (s'.present ≡ false) × (has_event delete_commit world (ledger_db s') ≡ true)
Answer world (err audit_commit_failed) s s' = s'.present ≡ false
Answer world (err delete_failed_after_intent) s s' =
    (has_event delete_intent world (ledger_db s') ≡ true) × ((s.present || not s'.present) ≡ true)
Answer world (err e) s s' = s'.present ≡ s.present

-- What a delete has done, whatever failed on the way.
pub record Delivered (world : Bytes) (outcome : Result DeleteError (Unit {0})) (s s' : Core)
    : Type 0 where
  pub ledger_grown : Extends (ledger_db s) (ledger_db s')
  pub intent_first :
      (not s.present || s'.present || has_event delete_intent world (ledger_db s')) ≡ true
  pub answer : Answer world outcome s s'
  pub tombstone_lifted : (s.tombstone || not s'.tombstone) ≡ true

Answer-of_Promise :
    (world : Bytes) (o : Result DeleteError (Unit {0})) (s s' : Core)
    → Promise world o s s'
    → Answer world o s s'
Answer-of_Promise world (ok u) s s' p = p.committed refl
Answer-of_Promise world (err audit_commit_failed) s s' p = p.uncommitted refl
Answer-of_Promise world (err delete_failed_after_intent) s s' p = p.halfway refl
Answer-of_Promise world (err reserved_metadata_header) s s' p =
    p.unharmed _ refl (λ y. cc) (λ y. cc)
Answer-of_Promise world (err invalid_metadata) s s' p = p.unharmed _ refl (λ y. cc) (λ y. cc)
Answer-of_Promise world (err not_found) s s' p = p.unharmed _ refl (λ y. cc) (λ y. cc)
Answer-of_Promise world (err (precondition_failed x)) s s' p = p.unharmed _ refl (λ y. cc) (λ y. cc)
Answer-of_Promise world (err (read_failed scope x)) s s' p = p.unharmed _ refl (λ y. cc) (λ y. cc)
Answer-of_Promise world (err subject_missing_head) s s' p = p.unharmed _ refl (λ y. cc) (λ y. cc)
Answer-of_Promise world (err shutting_down) s s' p = p.unharmed _ refl (λ y. cc) (λ y. cc)
Answer-of_Promise world (err (audit_intent x)) s s' p = p.unharmed _ refl (λ y. cc) (λ y. cc)
Answer-of_Promise world (err (internal_invariant x)) s s' p = p.unharmed _ refl (λ y. cc) (λ y. cc)

-- Whatever fails on the way of a delete: the ledger only grows; a world that was there and is gone
-- has its intent in the ledger; success means that it is gone and that its commit is in the ledger;
-- the error of the commit means that it is gone; that of a failed removal means that the intent is in
-- the ledger, and leaves open whether a world that was there is still there; every other error leaves
-- the world as it was; and a tombstone that the delete has put is lifted.
pub delete_blocking-Delivered :
    (c : Crypto) (key world : Bytes) (req : DeleteRequest) (w : World) (s : Core)
    → Delivered world
        ((delete_blocking c key world req w s).0)
        s
        ((delete_blocking c key world req w s).1)
delete_blocking-Delivered c key world req w s =
    let p = delete_blocking-Promise c key world req w s in
    record {
      ledger_grown = p.grown;
      intent_first = intent s.present ((delete_blocking c key world req w s).1.present) _ p.gone;
      answer = Answer-of_Promise world _ s _ p;
      tombstone_lifted =
          lifted s.tombstone ((delete_blocking c key world req w s).1.tombstone) p.readable;
    }
  where
    intent : (a b d : Bool) → (a ≡ true → b ≡ false → d ≡ true) → (not a || b || d) ≡ true
    intent a b d h = ground arith

    lifted : (a b : Bool) → (a ≡ false → b ≡ false) → (a || not b) ≡ true
    lifted a b h = ground arith
