-- ===== src/ReadCache.antt =====
-- The slots of one world in core/src/read_cache.rs and core/src/read_cache/state_machine.rs: the
-- threads that read, evict, delete and write, as steps on the slots that were ever made.
pub mod Invariant
pub mod Draining
use audite_db.Prelude.{ℕ, suc, ◌+◌, ◌≡◌, Bool, true, false, Option, none, some, ◌==◌, if◌then◌else◌}

-- A slot whose connection is open is `ready`; one whose connection its owner opens is `opening`.
pub data SlotState : Type 0 where
  opening ready evicted tombstone : SlotState

-- The lock of a slot: so many readers, or one writer.
pub data Guard : Type 0 where
  readers : ℕ → Guard
  writer : Guard

pub data Maker : Type 0 where
  by_reader by_delete : Maker

-- `ReadSlot`, with who made it, and whether a write has taken it out of the map.
pub record ReadSlot : Type 0 where
  pub state : SlotState
  pub guard : Guard
  pub maker : Maker
  pub cleared : Bool

-- How far the delete of the world is: none runs, it waits for the slot that its tombstone replaced,
-- or `install_tombstone_blocking` has returned and `clear_tombstone` has not run.
pub data Delete : Type 0 where
  idle : Delete
  draining : Option ℕ → Delete
  installed : Delete

-- The slots by their numbers, of which the first so many were made; the slot in the map `read_conns`.
pub record ReadCache : Type 0 where
  pub slots : ℕ → ReadSlot
  pub made : ℕ
  pub mapped : Option ℕ
  pub delete : Delete

abbrev pub set_slot : ℕ → ReadSlot → (ℕ → ReadSlot) → ℕ → ReadSlot
set_slot i slot slots j = if j == i then slot else slots j

abbrev pub with_slot : ℕ → ReadSlot → ReadCache → ReadCache
with_slot i slot s = record {
  slots = set_slot i slot s.slots;
  made = s.made;
  mapped = s.mapped;
  delete = s.delete;
}

abbrev pub with_guard : Guard → ReadSlot → ReadSlot
with_guard guard slot = record {
  state = slot.state;
  guard = guard;
  maker = slot.maker;
  cleared = slot.cleared;
}

-- A new state of a slot, whose lock is let go.
abbrev pub settled : SlotState → ReadSlot → ReadSlot
settled state slot = record {
  state = state;
  guard = readers 0;
  maker = slot.maker;
  cleared = slot.cleared;
}

abbrev pub with_map : Option ℕ → Delete → ReadCache → ReadCache
with_map mapped delete s = record {
  slots = s.slots;
  made = s.made;
  mapped = mapped;
  delete = delete;
}

-- A slot in the map that was not there.
abbrev pub insert_slot : ReadSlot → Delete → ReadCache → ReadCache
insert_slot slot delete s = record {
  slots = set_slot s.made slot s.slots;
  made = s.made + 1;
  mapped = some s.made;
  delete = delete;
}

-- `new_slot(SlotState::Opening)` under its write guard
abbrev pub opening_slot : ReadSlot
opening_slot = record { state = opening; guard = writer; maker = by_reader; cleared = false }

-- `new_slot(SlotState::Tombstone)`
abbrev pub tombstone_slot : ReadSlot
tombstone_slot = record { state = tombstone; guard = readers 0; maker = by_delete; cleared = false }

-- The slot that `clear_tombstone` of a write takes out of the map.
abbrev pub taken_out : ReadSlot → ReadSlot
taken_out slot = record {
  state = slot.state;
  guard = slot.guard;
  maker = slot.maker;
  cleared = true;
}

unfoldable pub clear_for_write : ReadCache → ReadCache
clear_for_write s = elim s.mapped [
  | none ↦ s
  | some i ↦ with_map none s.delete (with_slot i (taken_out (s.slots i)) s)
]

abbrev pub new_cache : ReadCache
new_cache = record {
  slots = λ i. record { state = evicted; guard = readers 0; maker = by_reader; cleared = false };
  made = 0;
  mapped = none;
  delete = idle;
}

-- What one thread does without another in between. A thread that has cloned a slot from the map may
-- use it whatever becomes of the map, so the steps of readers are of any slot.
pub data Step : ReadCache → ReadCache → Type 0 where
  -- `invoke_via_slot`, to its read guard and from it
  read_locked :
      (s : ReadCache) (i n : ℕ)
      → (s.slots i).guard ≡ readers n
      → Step s (with_slot i (with_guard (readers (suc n)) (s.slots i)) s)
  read_unlocked :
      (s : ReadCache) (i n : ℕ)
      → (s.slots i).guard ≡ readers (suc n)
      → Step s (with_slot i (with_guard (readers n) (s.slots i)) s)
  -- `or_insert_with`, in a map without the world
  published : (s : ReadCache) → s.mapped ≡ none → Step s (insert_slot opening_slot s.delete s)
  -- `OpeningTransition::promote`
  promoted :
      (s : ReadCache) (i : ℕ)
      → (s.slots i).state ≡ opening
      → Step s (with_slot i (settled ready (s.slots i)) s)
  -- `OpeningTransition::fail`, or its drop
  open_failed :
      (s : ReadCache) (i : ℕ)
      → (s.slots i).state ≡ opening
      → Step s (with_slot i (settled evicted (s.slots i)) s)
  -- `try_evict_ready_slot`, to its replacement
  ready_evicted :
      (s : ReadCache) (i : ℕ)
      → (s.slots i).state ≡ ready
      → (s.slots i).guard ≡ readers 0
      → Step s (with_slot i (settled evicted (s.slots i)) s)
  -- the drain of a transient slot by its owner, or of any by `drain_all_blocking`
  slot_drained :
      (s : ReadCache) (i : ℕ)
      → (s.slots i).maker ≡ by_reader
      → (s.slots i).guard ≡ readers 0
      → Step s (with_slot i (settled evicted (s.slots i)) s)
  -- `remove_evicted_entry`
  evicted_removed :
      (s : ReadCache) (i : ℕ)
      → s.mapped ≡ some i
      → (s.slots i).state ≡ evicted
      → Step s (with_map none s.delete s)
  -- `install_tombstone_blocking`: its insertion, and its drain of what was there
  tombstone_inserted :
      (s : ReadCache) → s.delete ≡ idle → Step s (insert_slot tombstone_slot (draining s.mapped) s)
  nothing_to_drain :
      (s : ReadCache) → s.delete ≡ draining none → Step s (with_map s.mapped installed s)
  replaced_drained :
      (s : ReadCache) (i : ℕ)
      → s.delete ≡ draining (some i)
      → (s.slots i).guard ≡ readers 0
      → Step s (with_map s.mapped installed (with_slot i (settled tombstone (s.slots i)) s))
  -- `clear_tombstone` of the delete, and of a write, which hold the lock of the world
  delete_cleared : (s : ReadCache) → s.delete ≡ installed → Step s (with_map none idle s)
  write_cleared : (s : ReadCache) → s.delete ≡ idle → Step s (clear_for_write s)

pub data Steps : ReadCache → ReadCache → Type 0 where
  done : (s : ReadCache) → Steps s s
  next : (s t u : ReadCache) → Step s t → Steps t u → Steps s u

-- Whether a connection is open in the slot, or about to be.
unfoldable pub is_open : SlotState → Bool
is_open opening = true
is_open ready = true
is_open evicted = false
is_open tombstone = false
