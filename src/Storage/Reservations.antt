-- ===== src/Storage/Reservations.antt =====
-- Reservations of core/src/state/storage_reservation.rs by several writers, in any order: the
-- counter covers what is stored, and never passes the quota.
use audite_db.Prelude.{ℕ, ◌+◌, ◌-◌, ◌≡◌, refl, ◌≤◌, Option, List, [], ◌∷◌, ◌++◌, All, ok, arith}
use audite_db.Storage.{
  Reservation, quota_of, reserve_storage_after_prune, commit_reservation, drop_reservation,
}

-- A write that holds a reservation: the lengths that it has asked for, and the proof that it has.
pub record Pending : Type 0 where
  pub prev_len : ℕ
  pub new_len : ℕ
  pub pruned_len : ℕ
  pub reservation : Reservation

-- The counter, the bytes that are stored, and the writes whose reservations are armed.
pub record Ledger : Type 0 where
  pub counter : ℕ
  pub durable : ℕ
  pub pending : List Pending

unfoldable pub increases : List Pending → ℕ
increases [] = 0
increases (p ∷ ps) = p.reservation.reserved_increase + increases ps

-- The stored bytes that the writes are to replace or to prune.
unfoldable pub to_replace : List Pending → ℕ
to_replace [] = 0
to_replace (p ∷ ps) = (p.prev_len + p.pruned_len) + to_replace ps

increases-middle :
    (pre post : List Pending) (p : Pending)
    → increases (pre ++ p ∷ post) ≡ p.reservation.reserved_increase + increases (pre ++ post)
unfolding increases
increases-middle [] post p = refl
increases-middle (x ∷ pre) post p = omega (arith, increases-middle pre post p)

to_replace-middle :
    (pre post : List Pending) (p : Pending)
    → to_replace (pre ++ p ∷ post) ≡ (p.prev_len + p.pruned_len) + to_replace (pre ++ post)
unfolding to_replace
to_replace-middle [] post p = refl
to_replace-middle (x ∷ pre) post p = omega (arith, to_replace-middle pre post p)

All-middle :
    (P : Pending → Type 0) (pre post : List Pending) (p : Pending)
    → All P (pre ++ p ∷ post)
    → P p × All P (pre ++ post)
All-middle P [] post p h = h
All-middle P (x ∷ pre) post p h =
    let (own, rest) = All-middle P pre post p h.1 in (own, (h.0, rest))

-- What the writers do, each step one atomic update of the counter. A writer holds its world's lock,
-- so the bytes that it means to replace or to prune are stored and no other writer's. A commit
-- stores the new bytes in place of them; what it does to the counter is its reservation's.
pub data Step (max_storage_bytes : Option ℕ) : Ledger → Ledger → Type 0 where
  reserve :
      (s : Ledger) (prev_len new_len pruned_len counter : ℕ) (r : Reservation)
      → reserve_storage_after_prune max_storage_bytes s.counter prev_len new_len pruned_len
        ≡ ok (counter, r)
      → (prev_len + pruned_len) + to_replace s.pending ≤ s.durable
      → Step max_storage_bytes s (record {
        counter = counter;
        durable = s.durable;
        pending =
            record {
              prev_len = prev_len;
              new_len = new_len;
              pruned_len = pruned_len;
              reservation = r;
            }
            ∷ s.pending;
      })
  commit :
      (counter durable : ℕ) (pre post : List Pending) (p : Pending)
      → Step max_storage_bytes
          (record { counter = counter; durable = durable; pending = pre ++ p ∷ post })
          (record {
            counter = commit_reservation counter p.reservation;
            durable = durable + p.new_len - (p.prev_len + p.pruned_len);
            pending = pre ++ post;
          })
  abandon :
      (counter durable : ℕ) (pre post : List Pending) (p : Pending)
      → Step max_storage_bytes
          (record { counter = counter; durable = durable; pending = pre ++ p ∷ post })
          (record {
            counter = drop_reservation counter p.reservation;
            durable = durable;
            pending = pre ++ post;
          })

pub data Steps (max_storage_bytes : Option ℕ) : Ledger → Ledger → Type 0 where
  done : (s : Ledger) → Steps max_storage_bytes s s
  next :
      (s t u : Ledger)
      → Step max_storage_bytes s t
      → Steps max_storage_bytes t u
      → Steps max_storage_bytes s u

-- A reservation publishes what its write adds and defers what it gives back.
pub record Fair (p : Pending) : Type 0 where
  pub balanced :
      p.reservation.reserved_increase + (p.prev_len + p.pruned_len)
      ≡ p.new_len + p.reservation.deferred_credit
  pub stored : p.reservation.deferred_credit ≤ p.prev_len + p.pruned_len

-- The counter is what is stored and what is reserved; what the writes are to replace is stored.
pub record Covers (max_storage_bytes : Option ℕ) (s : Ledger) : Type 0 where
  pub exact : s.counter ≡ s.durable + increases s.pending
  pub backed : to_replace s.pending ≤ s.durable
  pub fair : All Fair s.pending
  pub within : s.counter ≤ quota_of max_storage_bytes

-- What a granted reservation has published and has promised.
reserved :
    (max : Option ℕ) (used prev new pruned counter : ℕ) (r : Reservation)
    → reserve_storage_after_prune max used prev new pruned ≡ ok (counter, r)
    → (counter ≡ used + r.reserved_increase)
      × (r.reserved_increase + (prev + pruned) ≡ new + r.deferred_credit)
      × (r.deferred_credit ≤ prev + pruned)
      × (counter ≤ quota_of max)
unfolding reserve_storage_after_prune
reserved max used prev new pruned counter r h = ground arith

step-Covers : (max : Option ℕ) (s t : Ledger) → Step max s t → Covers max s → Covers max t
unfolding commit_reservation drop_reservation increases to_replace
step-Covers max _ _ (reserve s prev new pruned counter r h covered) v =
    let (grown, balanced, given, bounded) = reserved max s.counter prev new pruned counter r h in
    record {
      exact = omega (arith, v.exact, grown);
      backed = covered;
      fair = (record { balanced = balanced; stored = given }, v.fair);
      within = bounded;
    }
step-Covers max _ _ (commit counter durable pre post p) v =
    let i = increases-middle pre post p in
    let d = to_replace-middle pre post p in
    let (own, others) = All-middle Fair pre post p v.fair in
    record {
      exact = omega (arith, v.exact, v.backed, i, d, own.balanced, own.stored);
      backed = omega (arith, v.backed, d);
      fair = others;
      within = omega (arith, v.within);
    }
step-Covers max _ _ (abandon counter durable pre post p) v =
    let i = increases-middle pre post p in
    let d = to_replace-middle pre post p in
    record {
      exact = omega (arith, v.exact, i);
      backed = omega (arith, v.backed, d);
      fair = (All-middle Fair pre post p v.fair).1;
      within = omega (arith, v.within);
    }

-- In whatever order writers reserve, commit and abandon, the counter stays what is stored and
-- reserved, within the quota; every reservation keeps the balance of the lengths that its write has
-- asked for; and what the writes are to replace or to prune stays stored. A commit stores its new
-- length in place of those that it replaces and prunes.
pub Steps-Covers : (max : Option ℕ) (s t : Ledger) → Steps max s t → Covers max s → Covers max t
Steps-Covers max s _ (done _) v = v
Steps-Covers max s u (next _ t _ step rest) v =
    Steps-Covers max t u rest (step-Covers max s t step v)
