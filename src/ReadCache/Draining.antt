-- ===== src/ReadCache/Draining.antt =====
-- What a tombstone of core/src/read_cache.rs has closed when its installation returns.
use audite_db.Prelude.{
  none-ne-some, some-injective, ℕ, suc, ◌≡◌, ◌≢◌, refl, sym, ap, ◌∙◌, subst, true, none, some, inl,
  inr, Option-cases, arith,
}
use audite_db.ReadCache.{
  ready, evicted, tombstone, readers, idle, draining, installed, ReadCache, with_slot, with_guard,
  settled, with_map, insert_slot, opening_slot, tombstone_slot, taken_out, clear_for_write,
  new_cache, Step, read_locked, read_unlocked, published, promoted, open_failed, ready_evicted,
  slot_drained, evicted_removed, tombstone_inserted, nothing_to_drain, replaced_drained,
  delete_cleared, write_cleared, Steps, done, next, is_open,
}
use audite_db.ReadCache.Invariant.{
  was_cleared, is_mapped, is_awaited, Held, Sound, set_slot-cases, set_slot_same, set_slot-Kept,
  with_slot-Sound, guard-Kept, closed-Kept, opening-Kept, tombstone-Kept, idle-ne-draining,
  idle-ne-installed, installed-ne-draining, closed-shut, evicted-shut, evicted-ne-tombstone,
  ready-ne-tombstone, by_reader-ne-by_delete, draining-injective,
}

published-Sound :
    (s : ReadCache) → s.mapped ≡ none → Sound s → Sound (insert_slot opening_slot s.delete s)
published-Sound s e v = record {
  reasons = λ j h. elim (set_slot-cases s.made j opening_slot s.slots) [
    | inl (same, k) ↦ is_mapped (ap some (sym same))
    | inr (other, k) ↦ elim (v.reasons j (subst (λ r. is_open r.state ≡ true) k h)) [
      | was_cleared c ↦ was_cleared (ap (λ r. r.cleared) k ∙ c)
      | is_mapped m ↦ absurd (none-ne-some (sym e ∙ m))
      | is_awaited a ↦ is_awaited a
    ]
  ];
  held = λ n. absurd (none-ne-some (sym e ∙ (v.held n).mapped));
}

tombstone_inserted-Sound :
    (s : ReadCache)
    → s.delete ≡ idle
    → Sound s
    → Sound (insert_slot tombstone_slot (draining s.mapped) s)
unfolding is_open
tombstone_inserted-Sound s e v = record {
  reasons = λ j h. elim (set_slot-cases s.made j tombstone_slot s.slots) [
    | inl (same, k) ↦ absurd (closed-shut (subst (λ r. is_open r.state ≡ true) k h))
    | inr (other, k) ↦ elim (v.reasons j (subst (λ r. is_open r.state ≡ true) k h)) [
      | was_cleared c ↦ was_cleared (ap (λ r. r.cleared) k ∙ c)
      | is_mapped m ↦ is_awaited (ap draining m)
      | is_awaited a ↦ absurd (idle-ne-draining (sym e ∙ a))
    ]
  ];
  held = λ n. record { slot = s.made; mapped = refl; state = ground arith; maker = ground arith };
}

Held-shut : (s : ReadCache) (j : ℕ) → Held s → s.mapped ≡ some j → is_open (s.slots j).state ≢ true
Held-shut s j held m h =
    let same : held.slot ≡ j = some-injective (sym held.mapped ∙ m) in
    closed-shut (ap is_open (sym (ap (λ n. (s.slots n).state) (sym same) ∙ held.state)) ∙ h)

evicted_removed-Sound :
    (s : ReadCache) (i : ℕ)
    → s.mapped ≡ some i
    → (s.slots i).state ≡ evicted
    → Sound s
    → Sound (with_map none s.delete s)
evicted_removed-Sound s i e shut v = record {
  reasons = λ j h. elim (v.reasons j h) [
    | was_cleared c ↦ was_cleared c
    | is_mapped m ↦
        let same : i ≡ j = some-injective (sym e ∙ m) in
        absurd (evicted-shut (ap is_open (sym (ap (λ n. (s.slots n).state) (sym same) ∙ shut)) ∙ h))
    | is_awaited a ↦ is_awaited a
  ];
  held = λ n.
      let held = v.held n in
      let same : i ≡ held.slot = some-injective (sym e ∙ held.mapped) in
      absurd (evicted-ne-tombstone (sym shut ∙ ap (λ n. (s.slots n).state) same ∙ held.state));
}

nothing_to_drain-Sound :
    (s : ReadCache) → s.delete ≡ draining none → Sound s → Sound (with_map s.mapped installed s)
nothing_to_drain-Sound s e v = record {
  reasons = λ j h. elim (v.reasons j h) [
    | was_cleared c ↦ was_cleared c
    | is_mapped m ↦ is_mapped m
    | is_awaited a ↦ absurd (none-ne-some (draining-injective (sym e ∙ a)))
  ];
  held = λ n.
      let held = v.held (λ i. idle-ne-draining (sym i ∙ e)) in
      record { slot = held.slot; mapped = held.mapped; state = held.state; maker = held.maker };
}

replaced_drained-Sound :
    (s : ReadCache) (i : ℕ)
    → s.delete ≡ draining (some i)
    → Sound s
    → Sound (with_map s.mapped installed (with_slot i (settled tombstone (s.slots i)) s))
replaced_drained-Sound s i e v =
    let slot = settled tombstone (s.slots i) in
    let kept = λ (j : ℕ). set_slot-Kept i j slot s.slots (tombstone-Kept (s.slots i)) in
    record {
      reasons = λ j h. elim (v.reasons j ((kept j).opens h)) [
        | was_cleared c ↦ was_cleared ((kept j).cleared c)
        | is_mapped m ↦ is_mapped m
        | is_awaited a ↦
            let same : i ≡ j = some-injective (draining-injective (sym e ∙ a)) in
            absurd (
              closed-shut
                (ap is_open (sym (ap (λ r. r.state) (set_slot_same i j slot s.slots same))) ∙ h))
      ];
      held = λ n.
          let held = v.held (λ k. idle-ne-draining (sym k ∙ e)) in
          record {
            slot = held.slot;
            mapped = held.mapped;
            state = (kept held.slot).state held.maker held.state;
            maker = (kept held.slot).maker ∙ held.maker;
          };
    }

delete_cleared-Sound :
    (s : ReadCache) → s.delete ≡ installed → Sound s → Sound (with_map none idle s)
delete_cleared-Sound s e v = record {
  reasons = λ j h. elim (v.reasons j h) [
    | was_cleared c ↦ was_cleared c
    | is_mapped m ↦
        let held = v.held (λ k. idle-ne-installed (sym k ∙ e)) in absurd (Held-shut s j held m h)
    | is_awaited a ↦ absurd (installed-ne-draining (sym e ∙ a))
  ];
  held = λ n. absurd (n refl);
}

taken_out-Sound :
    (s : ReadCache) (i : ℕ)
    → s.mapped ≡ some i
    → s.delete ≡ idle
    → Sound s
    → Sound (with_map none s.delete (with_slot i (taken_out (s.slots i)) s))
taken_out-Sound s i m e v = record {
  reasons = λ j h.
      let slot = taken_out (s.slots i) in
      let kept =
        set_slot-Kept i j slot s.slots
          (record { opens = λ k. k; cleared = λ k. refl; state = λ k l. l; maker = refl }) in
      elim (v.reasons j (kept.opens h)) [
        | was_cleared c ↦ was_cleared (kept.cleared c)
        | is_mapped k ↦
            was_cleared
              (ap (λ r. r.cleared) (set_slot_same i j slot s.slots (some-injective (sym m ∙ k))))
        | is_awaited a ↦ is_awaited a
      ];
  held = λ n. absurd (n e);
}

write_cleared-Sound : (s : ReadCache) → s.delete ≡ idle → Sound s → Sound (clear_for_write s)
unfolding clear_for_write
write_cleared-Sound s e v = elim (Option-cases s.mapped) [
  | inl m ↦ subst Sound (sym (unmapped s m)) v
  | inr (i, m) ↦ subst Sound (sym (mapped s i m)) (taken_out-Sound s i m e v)
]
  where
    unmapped : (s : ReadCache) → s.mapped ≡ none → clear_for_write s ≡ s
    unmapped s m = ground arith

    mapped :
        (s : ReadCache) (i : ℕ)
        → s.mapped ≡ some i
        → clear_for_write s ≡ with_map none s.delete (with_slot i (taken_out (s.slots i)) s)
    mapped s i m = ground arith

step-Sound : (s t : ReadCache) → Step s t → Sound s → Sound t
step-Sound _ _ (read_locked s i n g) v =
    with_slot-Sound s i (with_guard (readers (suc n)) (s.slots i)) (guard-Kept (s.slots i) (suc n))
      v
step-Sound _ _ (read_unlocked s i n g) v =
    with_slot-Sound s i (with_guard (readers n) (s.slots i)) (guard-Kept (s.slots i) n) v
step-Sound _ _ (published s m) v = published-Sound s m v
step-Sound _ _ (promoted s i e) v =
    with_slot-Sound s i (settled ready (s.slots i)) (opening-Kept (s.slots i) ready e) v
step-Sound _ _ (open_failed s i e) v =
    with_slot-Sound s i (settled evicted (s.slots i)) (opening-Kept (s.slots i) evicted e) v
step-Sound _ _ (ready_evicted s i e g) v =
    with_slot-Sound s i (settled evicted (s.slots i))
      (closed-Kept (s.slots i) (λ m k. absurd (ready-ne-tombstone (sym e ∙ k)))) v
step-Sound _ _ (slot_drained s i m g) v =
    with_slot-Sound s i (settled evicted (s.slots i))
      (closed-Kept (s.slots i) (λ k l. absurd (by_reader-ne-by_delete (sym m ∙ k)))) v
step-Sound _ _ (evicted_removed s i m e) v = evicted_removed-Sound s i m e v
step-Sound _ _ (tombstone_inserted s e) v = tombstone_inserted-Sound s e v
step-Sound _ _ (nothing_to_drain s e) v = nothing_to_drain-Sound s e v
step-Sound _ _ (replaced_drained s i e g) v = replaced_drained-Sound s i e v
step-Sound _ _ (delete_cleared s e) v = delete_cleared-Sound s e v
step-Sound _ _ (write_cleared s e) v = write_cleared-Sound s e v

Steps-Sound : (s t : ReadCache) → Steps s t → Sound s → Sound t
Steps-Sound s _ (done _) v = v
Steps-Sound s u (next _ t _ first rest) v = Steps-Sound t u rest (step-Sound s t first v)

new_cache-Sound : Sound new_cache
new_cache-Sound = record { reasons = λ i h. absurd (evicted-shut h); held = λ n. absurd (n refl) }

-- Whatever the threads did before, while the tombstone of a delete is installed the map has a
-- tombstone for the world, and each connection that is open, or about to be, is in a slot that a
-- write took out of the map.
pub tombstone-closed :
    (s : ReadCache)
    → Steps new_cache s
    → s.delete ≡ installed
    → ((slot : ℕ) × (s.mapped ≡ some slot) × ((s.slots slot).state ≡ tombstone))
      × ((i : ℕ) → is_open (s.slots i).state ≡ true → (s.slots i).cleared ≡ true)
tombstone-closed s run e =
    let v = Steps-Sound new_cache s run new_cache-Sound in
    let held = v.held (λ k. idle-ne-installed (sym k ∙ e)) in
    (
      (held.slot, held.mapped, held.state),
      λ i h. elim (v.reasons i h) [
        | was_cleared c ↦ c
        | is_mapped m ↦ absurd (Held-shut s i held m h)
        | is_awaited a ↦ absurd (installed-ne-draining (sym e ∙ a))
      ],
    )
