-- ===== src/MemoryStore/Deletes.antt =====
-- `delete` of core/src/store.rs: what it removes and gives back.
use audite_db.Prelude.{is_some, ◌≡◌, refl, sym, ap, subst, arith, Option-cases, inl, inr}
use audite_db.Prelude.Assoc.{lookup, remove, remove-absent}
use audite_db.Prelude.Text.{Bytes}
use audite_db.MemoryStore.{MemoryStore, delete}
use audite_db.MemoryStore.Accounting.{total, lookup-cost, total-remove}
use audite_db.MemoryStore.Writes.{WellFormed, old-cost, remove-Distinct}

delete-result :
    (world : Bytes) (s : MemoryStore)
    → WellFormed s
    → delete world s ≡ (
      is_some (lookup world s.entries),
      record { entries = remove world s.entries; accounted_bytes = total (remove world s.entries) },
    )
unfolding delete
delete-result world s w = elim (Option-cases (lookup world s.entries)) [
  | inl gone ↦
      let same = remove-absent world s.entries gone in
      ground (arith, gone, same, ap total same, w.summed)
  | inr (e, found) ↦ ground (
    arith,
    found,
    old-cost s world e w found,
    total-remove world s.entries w.distinct,
    lookup-cost world s.entries,
    w.summed,
  )
]

-- A delete from a well-formed store removes exactly the world, gives its bytes back to the quota,
-- tells whether it was there, and leaves a well-formed store.
delete-WellFormed :
    (world : Bytes) (s : MemoryStore)
    → WellFormed s
    → (delete world s ≡ (
      is_some (lookup world s.entries),
      record { entries = remove world s.entries; accounted_bytes = total (remove world s.entries) },
    ))
      × WellFormed ((delete world s).1)
delete-WellFormed world s w = (
  delete-result world s w,
  subst (λ d. WellFormed (d.1)) (sym (delete-result world s w))
      (record {
        summed = refl;
        distinct = remove-Distinct world s.entries w.distinct;
        fits = omega (arith, w.fits, total-remove world s.entries w.distinct);
      }),
)
