-- ===== src/Storage.antt =====
-- core/src/state/storage_reservation.rs and the storage counters of core/src/state.rs: bytes and
-- audit events are reserved before a transaction, and the reservation is committed or dropped.
pub mod Counters
pub mod Reservations
use audite_db.Prelude.{
  ℕ, ◌+◌, ◌-◌, ◌≡◌, Bool, true, false, Option, none, some, Result, ok, err, leb, ltb, min,
  if◌then◌else◌,
}
use audite_db.Prelude.Parse.{usize_max}
use audite_db.MemoryStore.{checked_add}

abbrev pub saturating_add : ℕ → ℕ → ℕ
saturating_add a b = min (a + b) usize_max

-- What an armed `PendingStorageReservation` has published, and what it will publish on commit.
pub record Reservation : Type 0 where
  pub reserved_increase : ℕ
  pub deferred_credit : ℕ

pub record StorageReservationError : Type 0 where
  pub used : ℕ
  pub quota : ℕ
  pub projected : ℕ

-- `new_len` against the bytes that the write gives back
abbrev pub reservation_of : ℕ → ℕ → Reservation
reservation_of new_len predicted_credit =
    if leb predicted_credit new_len
    then record { reserved_increase = new_len - predicted_credit; deferred_credit = 0 }
    else record { reserved_increase = 0; deferred_credit = predicted_credit - new_len }

-- `max_storage_bytes.unwrap_or(usize::MAX)`
abbrev pub quota_of : Option ℕ → ℕ
quota_of none = usize_max
quota_of (some q) = q

-- The counter after the reservation, with its proof. The load and the `fetch_update` see one value.
unfoldable pub reserve_storage_after_prune :
    Option ℕ → ℕ → ℕ → ℕ → ℕ → Result StorageReservationError (ℕ × Reservation)
reserve_storage_after_prune max_storage_bytes used prev_len new_len pruned_len =
    elim (checked_add prev_len pruned_len) [
      | none ↦
          err (record { used = used; quota = quota_of max_storage_bytes; projected = usize_max })
      | some predicted_credit ↦
          let r = reservation_of new_len predicted_credit in
          let refused : Result StorageReservationError (ℕ × Reservation) = err (record {
            used = used;
            quota = quota_of max_storage_bytes;
            projected = saturating_add used r.reserved_increase;
          }) in
          elim (checked_add used r.reserved_increase) [
            | none ↦ refused
            | some projected ↦
                if leb projected (quota_of max_storage_bytes) then ok (projected, r) else refused
          ]
    ]

-- `credit_storage_counter`
abbrev pub credit_storage_counter : ℕ → ℕ → ℕ
credit_storage_counter used bytes = used - bytes

-- `PendingStorageReservation::commit` and its `Drop`
unfoldable pub commit_reservation : ℕ → Reservation → ℕ
commit_reservation used r = credit_storage_counter used r.deferred_credit

unfoldable pub drop_reservation : ℕ → Reservation → ℕ
drop_reservation used r = credit_storage_counter used r.reserved_increase

unfoldable pub adjust_counter : ℕ → ℕ → ℕ → ℕ
adjust_counter used subtract add = saturating_add (used - subtract) add

unfoldable pub rollback_storage_counter : ℕ → ℕ → ℕ → ℕ → ℕ
rollback_storage_counter used previous_len reserved_len predicted_pruned_len =
    saturating_add (saturating_add (used - reserved_len) previous_len) predicted_pruned_len

-- `PendingAuditEvents::MAXIMUM`
abbrev pub maximum_events : ℕ
maximum_events = 2

unfoldable pub reserve_audit_events : ℕ → Option ℕ
reserve_audit_events used = checked_add used maximum_events

unfoldable pub commit_one : ℕ → ℕ
commit_one used = credit_storage_counter used 1

unfoldable pub commit_two : ℕ → ℕ
commit_two used = used

unfoldable pub drop_events : ℕ → ℕ
drop_events used = credit_storage_counter used maximum_events
