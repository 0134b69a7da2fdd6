-- ===== src/ReadCache/Invariant.antt =====
-- What holds of the slots of core/src/read_cache.rs at every moment, and the steps of one slot.
use audite_db.Prelude.{
  ℕ, ◌≡◌, ◌≢◌, refl, sym, ap, ◌∙◌, subst, true, Option, some, ◌⊎◌, inl, inr, Bool-cases, ◌==◌,
  arith,
}
use audite_db.ReadCache.{
  SlotState, opening, ready, evicted, tombstone, readers, by_reader, by_delete, ReadSlot, idle,
  draining, installed, ReadCache, set_slot, with_slot, with_guard, settled, is_open,
}

-- Why an open connection is there: a write took its slot out of the map, the map has its slot, or the
-- delete waits for its slot.
pub data Reason (s : ReadCache) (i : ℕ) : Type 0 where
  was_cleared : (s.slots i).cleared ≡ true → Reason s i
  is_mapped : s.mapped ≡ some i → Reason s i
  is_awaited : s.delete ≡ draining (some i) → Reason s i

-- The slot in the map is the tombstone of the delete.
pub record Held (s : ReadCache) : Type 0 where
  pub slot : ℕ
  pub mapped : s.mapped ≡ some slot
  pub state : (s.slots slot).state ≡ tombstone
  pub maker : (s.slots slot).maker ≡ by_delete

-- What holds at every moment.
pub record Sound (s : ReadCache) : Type 0 where
  pub reasons : (i : ℕ) → is_open (s.slots i).state ≡ true → Reason s i
  pub held : s.delete ≢ idle → Held s

-- What a step makes of one slot: it opens no connection, keeps a slot cleared, and leaves a tombstone
-- of a delete as it is.
pub record Kept (old new : ReadSlot) : Type 0 where
  pub opens : is_open new.state ≡ true → is_open old.state ≡ true
  pub cleared : old.cleared ≡ true → new.cleared ≡ true
  pub state : old.maker ≡ by_delete → old.state ≡ tombstone → new.state ≡ tombstone
  pub maker : new.maker ≡ old.maker

pub set_slot-cases :
    (i j : ℕ) (slot : ReadSlot) (slots : ℕ → ReadSlot)
    → ((j ≡ i) × (set_slot i slot slots j ≡ slot)) ⊎ ((j ≢ i) × (set_slot i slot slots j ≡ slots j))
set_slot-cases i j slot slots = elim (Bool-cases (j == i)) [
  | inl same ↦ inl (ground arith, ground arith)
  | inr other ↦ inr ((λ e. ground arith), ground arith)
]

pub set_slot_same :
    (i j : ℕ) (slot : ReadSlot) (slots : ℕ → ReadSlot) → i ≡ j → set_slot i slot slots j ≡ slot
set_slot_same i j slot slots same = ground (arith, same)

-- A step of one slot, whatever it makes of the map and the delete.
pub set_slot-Kept :
    (i j : ℕ) (slot : ReadSlot) (slots : ℕ → ReadSlot)
    → Kept (slots i) slot
    → Kept (slots j) (set_slot i slot slots j)
set_slot-Kept i j slot slots k = elim (set_slot-cases i j slot slots) [
  | inl (same, e) ↦
      subst (λ n. Kept (slots n) (set_slot i slot slots j)) (sym same)
        (subst (Kept (slots i)) (sym e) k)
  | inr (other, e) ↦ record {
    opens = λ h. subst (λ r. is_open r.state ≡ true) e h;
    cleared = λ h. ap (λ r. r.cleared) e ∙ h;
    state = λ m h. ap (λ r. r.state) e ∙ h;
    maker = ap (λ r. r.maker) e;
  }
]

-- A step that opens no connection and leaves the map and the delete.
pub with_slot-Sound :
    (s : ReadCache) (i : ℕ) (slot : ReadSlot)
    → Kept (s.slots i) slot
    → Sound s
    → Sound (with_slot i slot s)
with_slot-Sound s i slot k v = record {
  reasons = λ j h.
      let kept = set_slot-Kept i j slot s.slots k in
      elim (v.reasons j (kept.opens h)) [
        | was_cleared c ↦ was_cleared (kept.cleared c)
        | is_mapped m ↦ is_mapped m
        | is_awaited a ↦ is_awaited a
      ];
  held = λ n.
      let held = v.held n in
      let kept = set_slot-Kept i held.slot slot s.slots k in
      record {
        slot = held.slot;
        mapped = held.mapped;
        state = kept.state held.maker held.state;
        maker = kept.maker ∙ held.maker;
      };
}

pub guard-Kept : (slot : ReadSlot) (n : ℕ) → Kept slot (with_guard (readers n) slot)
guard-Kept slot n = record { opens = λ h. h; cleared = λ h. h; state = λ m h. h; maker = refl }

-- A slot that closes, or stays so: it may be no tombstone of a delete.
pub closed-Kept :
    (slot : ReadSlot)
    → (slot.maker ≡ by_delete → slot.state ≡ tombstone → evicted ≡ tombstone)
    → Kept slot (settled evicted slot)
unfolding is_open
closed-Kept slot other = record {
  opens = λ h. absurd (cc);
  cleared = λ h. h;
  state = other;
  maker = refl;
}

pub opening-Kept :
    (slot : ReadSlot) (state : SlotState) → slot.state ≡ opening → Kept slot (settled state slot)
unfolding is_open
opening-Kept slot state e = record {
  opens = λ h. ap is_open e;
  cleared = λ h. h;
  state = λ m h. absurd (cc);
  maker = refl;
}

pub tombstone-Kept : (slot : ReadSlot) → Kept slot (settled tombstone slot)
unfolding is_open
tombstone-Kept slot = record {
  opens = λ h. absurd (cc);
  cleared = λ h. h;
  state = λ m h. refl;
  maker = refl;
}

pub idle-ne-draining : {x : Option ℕ} → idle ≢ draining x
idle-ne-draining h = cc

pub idle-ne-installed : idle ≢ installed
idle-ne-installed h = cc

pub installed-ne-draining : {x : Option ℕ} → installed ≢ draining x
installed-ne-draining h = cc

pub closed-shut : is_open tombstone ≢ true
unfolding is_open
closed-shut h = cc

pub evicted-shut : is_open evicted ≢ true
unfolding is_open
evicted-shut h = cc

pub evicted-ne-tombstone : evicted ≢ tombstone
evicted-ne-tombstone h = cc

pub ready-ne-tombstone : ready ≢ tombstone
ready-ne-tombstone h = cc

pub by_reader-ne-by_delete : by_reader ≢ by_delete
by_reader-ne-by_delete h = cc

pub draining-injective : {x y : Option ℕ} → draining x ≡ draining y → x ≡ y
draining-injective h = cc
