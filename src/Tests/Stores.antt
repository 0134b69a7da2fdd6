-- ===== src/Tests/Stores.antt =====
-- The theorems on the memory store, the reservations and the gate of file operations.
use audite_db.Prelude.{
  is_some, ◌+◌, ◌-◌, ◌*◌, ◌≤◌, ◌≡◌, ◌≢◌, refl, ◌↔◌, some, [], ◌∷◌, ◌++◌, ok, arith, true, false,
  none, leb, length, if◌then◌else◌,
}
use audite_db.Prelude.Assoc.{lookup, insert}
use audite_db.Prelude.Text.{Bytes, codes, eq_bytes}
use audite_db.Prelude.Parse.{usize_max}
use audite_db.MemoryStore.Listings.{list_with_prefix_bounded-list_with_prefix}
use audite_db.MemoryStore.{names_with_prefix, list_with_prefix, list_with_prefix_bounded}
use audite_db.MemoryStore.{
  MemEntry, MemoryStore, new_entry, appended_entry, write_with_quota, append_with_quota,
}
use audite_db.MemoryStore.Accounting.{total, parts_cost, headers_cost}
use audite_db.MemoryStore.Writes.{
  WellFormed, replaced, write_with_quota_iff, write_with_quota-WellFormed,
}
use audite_db.MemoryStore.Appends.{append_with_quota_iff}
use audite_db.Storage.{
  Reservation, reservation_of, quota_of, reserve_storage_after_prune, commit_reservation,
  reserve_audit_events, commit_one,
}
use audite_db.Storage.Reservations.{
  Pending, Ledger, reserve, commit, Steps, done, next, Covers, Steps-Covers, increases, to_replace,
}
use audite_db.Storage.Counters.{
  Events, EventSteps, stay, step, reserve_two, keep_one, EventSteps-exact,
  reserve_storage_after_prune_iff,
}
use audite_db.FileOps.{
  FileOpGate, new_gate, free, waiting, returned, not_called, shutdown_stored, shutdown_returned,
  passed,
}
use audite_db.FileOps.Draining.{shutdown-drained}
use audite_db.Tests.Fixtures.{toy}

abbrev tmp_a : Bytes
tmp_a = codes "tmp/a"

abbrev entry_a : MemEntry
entry_a = new_entry toy (codes "hi") (codes "text/plain") []

abbrev empty_store : MemoryStore
empty_store = record { entries = []; accounted_bytes = 0 }

empty-WellFormed : WellFormed empty_store
unfolding total parts_cost headers_cost
empty-WellFormed = record { summed = refl; distinct = tt; fits = omega arith }

abbrev store_a : MemoryStore
store_a = record { entries = (tmp_a, entry_a) ∷ []; accounted_bytes = 209 }

store_a-WellFormed : WellFormed store_a
unfolding total lookup parts_cost headers_cost
store_a-WellFormed = record { summed = refl; distinct = (refl, tt); fits = omega arith }

write_with_quota_iff_example :
    (write_with_quota toy tmp_a (codes "hi") (codes "text/plain") [] 1000 empty_store
      ≡ ok (false, store_a))
    ↔ ((total (insert tmp_a entry_a []) ≤ 1000)
        × (false ≡ is_some (lookup tmp_a empty_store.entries))
        × (store_a ≡ replaced empty_store tmp_a entry_a))
write_with_quota_iff_example =
    write_with_quota_iff toy tmp_a (codes "hi") (codes "text/plain") [] 1000 empty_store store_a
      false empty-WellFormed (omega arith)

written_a :
    write_with_quota toy tmp_a (codes "hi") (codes "text/plain") [] 1000 empty_store
    ≡ ok (false, store_a)
unfolding total insert lookup parts_cost headers_cost
written_a =
    (write_with_quota_iff toy tmp_a (codes "hi") (codes "text/plain") [] 1000 empty_store store_a
        false empty-WellFormed (omega arith)).1
      (omega arith, refl, refl)

write_with_quota-WellFormed_example : WellFormed store_a × (store_a.accounted_bytes ≤ 1000)
write_with_quota-WellFormed_example =
    write_with_quota-WellFormed toy tmp_a (codes "hi") (codes "text/plain") [] 1000 empty_store
      store_a false empty-WellFormed (omega arith) written_a

abbrev store_b : MemoryStore
store_b = replaced store_a tmp_a (appended_entry toy entry_a (codes "!"))

append_with_quota_iff_example :
    (append_with_quota toy tmp_a (codes "!") 1000 store_a
      ≡ ok (some (toy.sha256_hex (codes "hi" ++ codes "!")), store_b))
    ↔ ((total (insert tmp_a (appended_entry toy entry_a (codes "!")) store_a.entries) ≤ 1000)
        × (some (toy.sha256_hex (codes "hi" ++ codes "!"))
            ≡ some (toy.sha256_hex (codes "hi" ++ codes "!")))
        × (store_b ≡ replaced store_a tmp_a (appended_entry toy entry_a (codes "!"))))
unfolding lookup eq_bytes
append_with_quota_iff_example =
    append_with_quota_iff toy tmp_a (codes "!") 1000 store_a store_b entry_a
      (some (toy.sha256_hex (codes "hi" ++ codes "!"))) store_a-WellFormed (omega arith) refl

-- A writer that replaces 3 bytes by 5 under a quota of 100.
abbrev before_write : Ledger
before_write = record { counter = 10; durable = 10; pending = [] }

abbrev granted : Reservation
granted = record { reserved_increase = 2; deferred_credit = 0 }

granted_2 : reserve_storage_after_prune (some 100) 10 3 5 0 ≡ ok (12, granted)
unfolding reserve_storage_after_prune
granted_2 = refl

abbrev writer : Pending
writer = record { prev_len = 3; new_len = 5; pruned_len = 0; reservation = granted }

abbrev while_writing : Ledger
while_writing = record { counter = 12; durable = 10; pending = writer ∷ [] }

abbrev after_write : Ledger
after_write = record { counter = commit_reservation 12 granted; durable = 12; pending = [] }

one_write : Steps (some 100) before_write after_write
unfolding to_replace
one_write =
    next before_write while_writing after_write
      (reserve before_write 3 5 0 12 granted granted_2 (omega arith))
      (next while_writing after_write after_write (commit 12 10 [] [] writer) (done after_write))

before_write-Covers : Covers (some 100) before_write
unfolding increases to_replace
before_write-Covers = record { exact = refl; backed = omega arith; fair = tt; within = omega arith }

Steps-Covers_example : Covers (some 100) after_write
Steps-Covers_example =
    Steps-Covers (some 100) before_write after_write one_write before_write-Covers

reserve_storage_after_prune_iff_example :
    (reserve_storage_after_prune (some 100) 10 3 5 0 ≡ ok (12, granted)) ↔ (
      (3 + 0 ≤ usize_max)
      × (10 + (5 - (3 + 0)) ≤ quota_of (some 100))
      × (granted ≡ reservation_of 5 (3 + 0))
      × (12 ≡ 10 + (5 - (3 + 0))))
reserve_storage_after_prune_iff_example =
    reserve_storage_after_prune_iff (some 100) 10 3 5 0 12 granted (omega arith)

abbrev no_events : Events
no_events = record { counter = 0; committed = 0; in_flight = 0 }

abbrev one_event : Events
one_event = record { counter = 1; committed = 1; in_flight = 0 }

reserved_2 : reserve_audit_events 0 ≡ some 2
unfolding reserve_audit_events
reserved_2 = refl

one_append : EventSteps no_events one_event
unfolding commit_one
one_append =
    step no_events (record { counter = 2; committed = 0; in_flight = 1 }) one_event
      (reserve_two no_events 2 reserved_2)
      (step (record { counter = 2; committed = 0; in_flight = 1 }) one_event one_event
        (keep_one 2 0 0) (stay one_event))

EventSteps-exact_example : one_event.counter ≡ one_event.committed + 2 * one_event.in_flight
EventSteps-exact_example = EventSteps-exact no_events one_event one_append refl

abbrev closed_gate : FileOpGate
closed_gate = record {
  shutting_down = true;
  active = 0;
  holder = free;
  shutdown = returned;
  permits = 0;
}

closing : audite_db.FileOps.Steps new_gate closed_gate
closing =
    audite_db.FileOps.next new_gate
      (record { shutting_down = true; active = 0; holder = free; shutdown = waiting; permits = 0 })
      closed_gate (shutdown_stored false 0 free 0)
      (audite_db.FileOps.next
        (record {
          shutting_down = true;
          active = 0;
          holder = free;
          shutdown = waiting;
          permits = 0;
        })
        closed_gate closed_gate (shutdown_returned true 0) (audite_db.FileOps.done closed_gate))

shutdown-drained_example :
    (closed_gate.permits ≡ 0) × (closed_gate.active ≡ 0) × (closed_gate.holder ≢ passed)
shutdown-drained_example = shutdown-drained closed_gate closing refl

list_with_prefix_bounded-list_with_prefix_example :
    list_with_prefix_bounded (codes "tmp/") 0 store_a ≡ (
      if leb (length (names_with_prefix (codes "tmp/") store_a.entries)) 0
      then some (list_with_prefix (codes "tmp/") store_a)
      else none)
list_with_prefix_bounded-list_with_prefix_example =
    list_with_prefix_bounded-list_with_prefix (codes "tmp/") 0 store_a
