-- ===== src/Storage/Counters.antt =====
-- The counter of audit events in core/src/state/storage_reservation.rs, and the requests that a
-- reservation refuses.
use audite_db.Prelude.{ℕ, suc, ◌+◌, ◌-◌, ◌*◌, ◌≡◌, ◌≤◌, ◌↔◌, Option, some, ok, arith}
use audite_db.Prelude.Parse.{usize_max}
use audite_db.Storage.{
  Reservation, reservation_of, quota_of, reserve_storage_after_prune, reserve_audit_events,
  commit_one, commit_two, drop_events,
}

-- A reservation is granted exactly if the bytes given back fit a word and the counter with the
-- growth fits the quota; it then publishes the growth alone.
pub reserve_storage_after_prune_iff :
    (max : Option ℕ) (used prev new pruned counter : ℕ) (r : Reservation)
    → quota_of max ≤ usize_max
    → (reserve_storage_after_prune max used prev new pruned ≡ ok (counter, r)) ↔ (
        (prev + pruned ≤ usize_max)
        × (used + (new - (prev + pruned)) ≤ quota_of max)
        × (r ≡ reservation_of new (prev + pruned))
        × (counter ≡ used + (new - (prev + pruned))))
unfolding reserve_storage_after_prune
reserve_storage_after_prune_iff max used prev new pruned counter r bound = ground arith

-- The counter of audit events, the events that are committed, and the appends in flight.
pub record Events : Type 0 where
  pub counter : ℕ
  pub committed : ℕ
  pub in_flight : ℕ

pub data EventStep : Events → Events → Type 0 where
  reserve_two :
      (s : Events) (counter : ℕ)
      → reserve_audit_events s.counter ≡ some counter
      → EventStep s
          (record { counter = counter; committed = s.committed; in_flight = suc s.in_flight })
  keep_one :
      (counter committed in_flight : ℕ)
      → EventStep
          (record { counter = counter; committed = committed; in_flight = suc in_flight })
          (record {
            counter = commit_one counter;
            committed = committed + 1;
            in_flight = in_flight;
          })
  keep_two :
      (counter committed in_flight : ℕ)
      → EventStep
          (record { counter = counter; committed = committed; in_flight = suc in_flight })
          (record {
            counter = commit_two counter;
            committed = committed + 2;
            in_flight = in_flight;
          })
  keep_none :
      (counter committed in_flight : ℕ)
      → EventStep
          (record { counter = counter; committed = committed; in_flight = suc in_flight })
          (record { counter = drop_events counter; committed = committed; in_flight = in_flight })

pub data EventSteps : Events → Events → Type 0 where
  stay : (s : Events) → EventSteps s s
  step : (s t u : Events) → EventStep s t → EventSteps t u → EventSteps s u

EventStep-exact :
    (s t : Events)
    → EventStep s t
    → s.counter ≡ s.committed + 2 * s.in_flight
    → t.counter ≡ t.committed + 2 * t.in_flight
unfolding reserve_audit_events commit_one commit_two drop_events
EventStep-exact _ _ (reserve_two s counter h) e = ground arith
EventStep-exact _ _ (keep_one counter committed in_flight) e = omega (arith, e)
EventStep-exact _ _ (keep_two counter committed in_flight) e = omega (arith, e)
EventStep-exact _ _ (keep_none counter committed in_flight) e = omega (arith, e)

-- In whatever order appends reserve two slots and keep none, one or both, the counter is the
-- committed events and two for each append in flight.
pub EventSteps-exact :
    (s t : Events)
    → EventSteps s t
    → s.counter ≡ s.committed + 2 * s.in_flight
    → t.counter ≡ t.committed + 2 * t.in_flight
EventSteps-exact s _ (stay _) e = e
EventSteps-exact s u (step _ t _ first rest) e =
    EventSteps-exact t u rest (EventStep-exact s t first e)
