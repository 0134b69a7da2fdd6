-- ===== src/WorldStore/Windows.antt =====
-- The bodies that a world of core/src/world.rs retains, across its transactions.
use audite_db.Prelude.{ℕ, ◌+◌, ◌≤◌, ◌≡◌, List, ◌++◌, ok}
use audite_db.Prelude.Text.{Bytes}
use audite_db.Timeline.{Crypto}
use audite_db.Audit.Events.{put, append, Header}
use audite_db.Audit.Access.{Place}
use audite_db.Audit.Append.Entries.{WellFormed}
use audite_db.Cas.Window.{Window, Bounded}
use audite_db.Cas.Bounded.{Write-Bounded}
use audite_db.Audit.Retention.{WorldDb}
use audite_db.WorldStore.{
  WorldFile, OpenedWorldKind, existing, AuditVerificationCache, Times, WriteAuditResult,
  write_with_audit, append_with_audit,
}
use audite_db.WorldStore.Committed.{
  write_with_audit-Committed, append_with_audit-Committed, Committed-Finished,
}
use audite_db.WorldStore.Outcomes.{put-is_body, append-is_body, Finished}

Finished-Bounded :
    (c : Crypto) (n : ℕ) (body : Bytes) (db d1 db' : WorldDb) (inserted : audite_db.Prelude.Bool)
    (bytes : ℕ)
    → 1 ≤ n
    → Window db
    → Finished c n body db d1 db' inserted bytes
    → Bounded n db db'
Finished-Bounded c n body db d1 db' inserted bytes some_retained v f =
    Write-Bounded c db f.appended f.marked body f.write f.sized f.stored n bytes db' some_retained v
      f.prunes

-- A committed replacement keeps the window: every body event at or above the floor has its body in
-- the table, at its size, every body there is one of theirs, and the floor is the oldest of the
-- newest body events, so many as are retained, or the floor of before where that was higher. At
-- least one body is retained, and the tables were well formed and had a window.
pub write_with_audit-Bounded :
    (c : Crypto) (p : Place) (n : ℕ) (t : Times) (opened : OpenedWorldKind) (body ct : Bytes)
    (headers : List Header) (cache cache' : AuditVerificationCache) (f f' : WorldFile)
    (result : WriteAuditResult)
    → 1 ≤ n
    → WellFormed f.db
    → Window f.db
    → write_with_audit c p n t opened body ct headers cache f ≡ ok (result, f', cache')
    → Bounded n f.db f'.db
write_with_audit-Bounded c p n t opened body ct headers cache cache' f f' result some_retained w v
      h =
    let steps =
      write_with_audit-Committed c p n t opened body ct headers cache cache' f f' result h in
    Finished-Bounded c n body f.db steps.formatted.1 f'.db result.cas_body_inserted
      result.pruned_cas some_retained v
      (Committed-Finished c p n put t opened body ct headers cache cache' f f' result put-is_body w
        steps)

-- A committed append keeps the window: every body event at or above the floor has its body in the
-- table, at its size, every body there is one of theirs, and the floor is the oldest of the newest
-- body events, so many as are retained, or the floor of before where that was higher. At least one
-- body is retained, and the tables were well formed and had a window.
pub append_with_audit-Bounded :
    (c : Crypto) (p : Place) (n : ℕ) (t : Times) (body ct : Bytes) (headers : List Header)
    (cache cache' : AuditVerificationCache) (f f' : WorldFile) (result : WriteAuditResult)
    → 1 ≤ n
    → WellFormed f.db
    → Window f.db
    → append_with_audit c p n t body ct headers cache f ≡ ok (result, f', cache')
    → Bounded n f.db f'.db
append_with_audit-Bounded c p n t body ct headers cache cache' f f' result some_retained w v h =
    let (current, set, steps) =
      append_with_audit-Committed c p n t body ct headers cache cache' f f' result w h in
    Finished-Bounded c n (current ++ body) f.db steps.formatted.1 f'.db result.cas_body_inserted
      result.pruned_cas some_retained v
      (Committed-Finished c p n append t existing (current ++ body) ct headers cache cache' f f'
        result append-is_body w steps)
