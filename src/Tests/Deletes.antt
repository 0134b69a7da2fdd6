-- ===== src/Tests/Deletes.antt =====
-- The promises of a delete, at a world of the memory store.
use audite_db.Prelude.{none, some, [], ok, true, false}
use audite_db.Prelude.Text.{codes}
use audite_db.Etag.{Preconditions}
use audite_db.Ledger.{Attempt, LedgerState}
use audite_db.Delete.{DeleteRequest, World, Core}
use audite_db.Delete.Blocking.{delete_blocking}
use audite_db.Delete.Protocol.{Delivered, delete_blocking-Delivered}
use audite_db.Tests.Fixtures.{toy, noon, db_0}

abbrev fine : Attempt
fine = record { open_failure = none; started_at = noon; now = noon }

abbrev no_conditions : Preconditions
no_conditions = record { if_match = []; if_none_match = [] }

abbrev request : DeleteRequest
request = record { preconditions = no_conditions; content_type = []; headers = [] }

abbrev scratch : World
scratch = record {
  admitted = true;
  current_tag = ok none;
  stage = ok (some (codes "hi"));
  usage = ok none;
  head = ok none;
  removed = true;
  left = false;
  at_intent = fine;
  at_commit = fine;
  at_commit_failed = fine;
}

abbrev no_ledger : LedgerState
no_ledger = record {
  writer = record { connected = false; inits = 0; db = db_0 };
  audit_events = 0;
  notices = [];
}

abbrev fresh : Core
fresh = record {
  ledger = no_ledger;
  delete_ledger_created = false;
  durable_world_count = 0;
  storage_body_bytes = 0;
  storage_current_body_bytes = 0;
  storage_retained_cas_body_bytes = 0;
  present = true;
  write_conn_cached = false;
  tombstone = false;
  verified = false;
}

delete_blocking-Delivered_example :
    Delivered
      (codes "tmp/a")
      ((delete_blocking toy (codes "key") (codes "tmp/a") request scratch fresh).0)
      fresh
      ((delete_blocking toy (codes "key") (codes "tmp/a") request scratch fresh).1)
delete_blocking-Delivered_example =
    delete_blocking-Delivered toy (codes "key") (codes "tmp/a") request scratch fresh
