-- ===== src/WorldOps/Settling.antt =====
-- The gauges of core/src/state.rs after the settlement of a write of core/src/world_ops.rs.
use audite_db.Prelude.{ℕ, ◌+◌, ◌≡◌, ◌≤◌, Option, ok, is_some, arith, if◌then◌else◌}
use audite_db.Prelude.Parse.{usize_max}
use audite_db.Storage.{
  Reservation, quota_of, reserve_storage_after_prune, commit_reservation, drop_reservation,
  adjust_counter, rollback_storage_counter, commit_one, commit_two,
}
use audite_db.WorldStore.{WriteAuditResult}
use audite_db.WorldOps.{Gauges}
use audite_db.WorldOps.Durable.{settle}

-- A write in numbers: the totals of the current bodies and of the retained ones before it and after
-- it, and the reservation that it settles.
pub record Figures (max : Option ℕ) (r : Reservation)
    (current retained current' retained' previous next candidate prunable counter : ℕ)
    : Type 0 where
  pub credit : ℕ
  pub asked : ℕ
  pub bound : quota_of max ≤ usize_max
  pub reserved :
      reserve_storage_after_prune max (current + retained) credit asked prunable ≡ ok (counter, r)
  pub balance : asked + previous ≡ next + candidate + credit
  pub bodies : current' + previous ≡ current + next
  pub cas : retained' + prunable ≡ retained + candidate
  pub room : retained + candidate ≤ usize_max

module _ (max : Option ℕ) (r : Reservation)
    (current retained current' retained' previous next candidate prunable counter : ℕ)
    (n : Figures max r current retained current' retained' previous next candidate prunable counter)
    (result : WriteAuditResult) (g : Gauges) (pruned : result.pruned_cas ≡ prunable)
    (kept : (if result.cas_body_inserted then next else 0) ≡ candidate) where
  paid-exact : commit_reservation counter r ≡ current' + retained'
  unfolding commit_reservation reserve_storage_after_prune
  paid-exact =
      let h = n.reserved in let a = n.balance in let b = n.bodies in let k = n.cas in ground arith

  paid-bound : commit_reservation counter r ≤ usize_max
  unfolding commit_reservation reserve_storage_after_prune
  paid-bound = let h = n.reserved in let q = n.bound in ground arith

  pub settle-storage_body_bytes :
      g.storage_body_bytes ≡ counter
      → (settle r candidate prunable previous next next result g).storage_body_bytes
        ≡ current' + retained'
  unfolding settle rollback_storage_counter adjust_counter
  settle-storage_body_bytes h = ground (arith, paid-exact, paid-bound, kept, pruned)

  pub settle-storage_current_body_bytes :
      g.storage_current_body_bytes ≡ current
      → previous ≤ current
      → (settle r candidate prunable previous next next result g).storage_current_body_bytes
        ≡ current'
  unfolding settle adjust_counter
  settle-storage_current_body_bytes h low =
      let b = n.bodies in ground (arith, paid-exact, paid-bound)

  pub settle-storage_retained_cas_body_bytes :
      g.storage_retained_cas_body_bytes ≡ retained
      → (settle r candidate prunable previous next next result g).storage_retained_cas_body_bytes
        ≡ retained'
  unfolding settle adjust_counter
  settle-storage_retained_cas_body_bytes h =
      let k = n.cas in let m = n.room in ground (arith, kept, pruned)

  pub settle-storage_audit_chain_events :
      (events : ℕ)
      → g.storage_audit_chain_events ≡ events + 2
      → (settle r candidate prunable previous next next result g).storage_audit_chain_events
        ≡ events + 1 + (if is_some result.format_event then 1 else 0)
  unfolding settle commit_one commit_two
  settle-storage_audit_chain_events events h = ground arith

-- A reservation that is dropped leaves the counter as it was.
pub dropped-exact :
    (max : Option ℕ) (used credit asked prunable counter : ℕ) (r : Reservation)
    → reserve_storage_after_prune max used credit asked prunable ≡ ok (counter, r)
    → drop_reservation counter r ≡ used
unfolding drop_reservation reserve_storage_after_prune
dropped-exact max used credit asked prunable counter r h = ground arith
