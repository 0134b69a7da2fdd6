-- ===== src/Tests/Caches.antt =====
-- Runs of the threads on a slot of core/src/read_cache.rs.
use audite_db.Prelude.{ℕ, ◌≡◌, refl, true, some}
use audite_db.ReadCache.{
  ready, opening_slot, tombstone_slot, settled, tombstone, with_slot, with_map, insert_slot,
  draining, installed, tombstone_inserted, nothing_to_drain, replaced_drained, write_cleared,
  read_locked, published, promoted, clear_for_write, is_open, new_cache, ReadCache, Steps, done,
  next, with_guard, readers,
}
use audite_db.ReadCache.Draining.{tombstone-closed}

abbrev opened : ReadCache
opened = insert_slot opening_slot new_cache.delete new_cache

abbrev cached : ReadCache
cached = with_slot 0 (settled ready (opened.slots 0)) opened

abbrev deleting : ReadCache
deleting = insert_slot tombstone_slot (draining cached.mapped) cached

abbrev deleted : ReadCache
deleted =
    with_map deleting.mapped installed (with_slot 0 (settled tombstone (deleting.slots 0)) deleting)

deleted-Steps : Steps new_cache deleted
deleted-Steps = next _ _ _ (published new_cache refl) (
    next _ _ _ (promoted opened 0 refl) (
      next _ _ _ (tombstone_inserted cached refl)
        (next _ _ _ (replaced_drained deleting 0 refl refl) (done deleted))))

tombstone-closed_example :
    ((slot : ℕ) × (deleted.mapped ≡ some slot) × ((deleted.slots slot).state ≡ tombstone))
    × ((i : ℕ) → is_open (deleted.slots i).state ≡ true → (deleted.slots i).cleared ≡ true)
tombstone-closed_example = tombstone-closed deleted deleted-Steps refl

-- A reader reads; a write takes its slot out of the map; a delete then installs its tombstone and has
-- nothing to wait for.
abbrev reading : ReadCache
reading = with_slot 0 (with_guard (readers 1) (cached.slots 0)) cached

abbrev written : ReadCache
unfolding clear_for_write
written = clear_for_write reading

abbrev deleting_next : ReadCache
deleting_next = insert_slot tombstone_slot (draining written.mapped) written

abbrev deleted_next : ReadCache
deleted_next = with_map deleting_next.mapped installed deleting_next

reading-Steps : Steps new_cache deleted_next
unfolding clear_for_write
reading-Steps = next _ _ _ (published new_cache refl) (
    next _ _ _ (promoted opened 0 refl) (
      next _ _ _ (read_locked cached 0 0 refl) (
        next _ _ _ (write_cleared reading refl) (
          next _ _ _ (tombstone_inserted written refl)
            (next _ _ _ (nothing_to_drain deleting_next refl) (done deleted_next))))))

reading-is_open : is_open (deleted_next.slots 0).state ≡ true
unfolding is_open clear_for_write
reading-is_open = refl
