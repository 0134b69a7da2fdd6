-- ===== src/Delete/Blocking.antt =====
-- `delete_blocking` of core/src/delete_ops.rs from the intent on, and the whole of it.
use audite_db.Prelude.{
  ℕ, ◌-◌, false, Option, none, some, [], ◌∷◌, ◌++◌, Result, ok, err, if◌then◌else◌,
}
use audite_db.Prelude.Text.{Bytes, codes}
use audite_db.Timeline.{Crypto}
use audite_db.MemoryStore.{is_persistent}
use audite_db.Audit.Events.{delete_intent, delete_commit, delete_commit_failed}
use audite_db.Ledger.{
  AppendedLedgerEvent, deleted_notice, as_delete_intent, append_ledger_event_and_notify,
}
use audite_db.Storage.{adjust_counter}
use audite_db.Delete.{
  DeleteError, delete_failed_after_intent, audit_commit_failed, audit_intent, internal_invariant,
  DeleteRequest, Usage, World, Core, Prepared, prepare, job_of, with_ledger, remove_files,
  clear_tombstone,
}

-- `subtract_storage_usage`, and one world less
abbrev give_back : Option Usage → Core → Core
give_back none s = s
give_back (some u) s = record {
  ledger = record {
    writer = s.ledger.writer;
    audit_events = adjust_counter s.ledger.audit_events u.audit_chain_events 0;
    notices = s.ledger.notices;
  };
  delete_ledger_created = s.delete_ledger_created;
  durable_world_count = s.durable_world_count;
  storage_body_bytes = adjust_counter s.storage_body_bytes u.total_body_bytes 0;
  storage_current_body_bytes = adjust_counter s.storage_current_body_bytes u.current_body_bytes 0;
  storage_retained_cas_body_bytes =
      adjust_counter s.storage_retained_cas_body_bytes u.retained_cas_body_bytes 0;
  present = s.present;
  write_conn_cached = s.write_conn_cached;
  tombstone = s.tombstone;
  verified = s.verified;
}

abbrev counted_out : Core → ℕ → Core
counted_out s n = record {
  ledger = s.ledger;
  delete_ledger_created = s.delete_ledger_created;
  durable_world_count = n;
  storage_body_bytes = s.storage_body_bytes;
  storage_current_body_bytes = s.storage_current_body_bytes;
  storage_retained_cas_body_bytes = s.storage_retained_cas_body_bytes;
  present = s.present;
  write_conn_cached = s.write_conn_cached;
  tombstone = s.tombstone;
  verified = false;
}

-- The counters after the removal; the world is no longer marked as verified.
unfoldable pub settle : Bytes → Option Usage → Core → Core
unfolding adjust_counter
settle world usage s =
    if is_persistent world
    then counted_out (give_back usage s) (s.durable_world_count - 1)
    else counted_out s s.durable_world_count

-- The notification of the delete itself.
abbrev pub notify_deleted : Bytes → AppendedLedgerEvent → Core → Core
notify_deleted world intent s = with_ledger s (record {
  writer = s.ledger.writer;
  audit_events = s.ledger.audit_events;
  notices = s.ledger.notices ++ deleted_notice world intent.event_id intent.delete_subject ∷ [];
})

-- The commit, or the record that it failed.
unfoldable pub commit_delete :
    Crypto → Bytes → Bytes → Prepared → World → Core → Result DeleteError (Unit {0}) × Core
commit_delete c key world p w s =
    let (outcome, l) =
      append_ledger_event_and_notify c key w.at_commit (job_of delete_commit world p) s.ledger in
    let (failed, m) =
      append_ledger_event_and_notify c key w.at_commit_failed (job_of delete_commit_failed world p)
        l in
    elim outcome [
      | ok event ↦ (ok tt, with_ledger s l)
      | err e ↦ (err audit_commit_failed, with_ledger s m)
    ]

-- What follows the intent.
unfoldable pub after_intent :
    Crypto
    → Bytes
    → Bytes
    → Prepared
    → World
    → AppendedLedgerEvent
    → Core
    → Result DeleteError (Unit {0}) × Core
unfolding settle commit_delete
after_intent c key world p w intent s =
    let removed = clear_tombstone (remove_files w s) in
    let settled = settle world p.usage removed in
    let committed = commit_delete c key world p w (notify_deleted world intent settled) in
    if w.removed
    then (if as_delete_intent intent then committed else (
      err (internal_invariant (codes "ledger append returned non-delete-intent event")),
      settled,
    ))
    else (err delete_failed_after_intent, removed)

unfoldable pub delete_blocking :
    Crypto → Bytes → Bytes → DeleteRequest → World → Core → Result DeleteError (Unit {0}) × Core
unfolding after_intent
delete_blocking c key world req w s = elim (prepare c world req w) [
  | err e ↦ (err e, s)
  | ok p ↦
      let (outcome, l) =
        append_ledger_event_and_notify c key w.at_intent (job_of delete_intent world p) s.ledger in
      elim outcome [
        | err e ↦ (err (audit_intent e), with_ledger s l)
        | ok event ↦ after_intent c key world p w event (with_ledger s l)
      ]
]
