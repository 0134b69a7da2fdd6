-- ===== src/WorldOps/Connections.antt =====
-- The reservations and the connection of a write of core/src/world_ops.rs.
use audite_db.Prelude.{
  ℕ, ◌+◌, ◌≡◌, refl, ap, none, Option-cases, Bool-cases, Result, ok, err, Result-cases, ◌⊎◌, inl,
  inr, arith,
}
use audite_db.Prelude.Assoc.{lookup}
use audite_db.Prelude.Text.{Bytes, codes}
use audite_db.Storage.{Reservation, reserve_storage_after_prune, reserve_audit_events}
use audite_db.WorldStore.{OpenedWorldKind}
use audite_db.WorldOps.{WriteError, internal, quota_exceeded, Settings, Core, Run}
use audite_db.WorldOps.Durable.{
  set_gauges, set_body_bytes, set_audit_events, reserve_storage, reserve_events, cached_write_conn,
  cached_existing_write_conn, check_shape, open_file, create_file,
}
use audite_db.WorldOps.Totals.{SameFiles, same_files, new_file}

pub data ReserveOutcome (s : Settings) (prev new pruned : ℕ) (core : Core)
    (out : Result WriteError Reservation × Core) : Type 0 where
  refused : (e : WriteError) → out ≡ (err e, core) → ReserveOutcome s prev new pruned core out
  granted :
      (counter : ℕ) (r : Reservation)
      → out ≡ (ok r, set_gauges (set_body_bytes (λ used. counter)) core)
      → reserve_storage_after_prune s.max_storage_bytes core.gauges.storage_body_bytes prev new
          pruned
        ≡ ok (counter, r)
      → ReserveOutcome s prev new pruned core out

pub reserve_storage-Outcome :
    (s : Settings) (prev new pruned : ℕ) (core : Core)
    → ReserveOutcome s prev new pruned core (reserve_storage s prev new pruned core)
unfolding reserve_storage
reserve_storage-Outcome s prev new pruned core =
    elim (Result-cases (
      reserve_storage_after_prune s.max_storage_bytes core.gauges.storage_body_bytes prev new
        pruned)) [
          | inl (a, h) ↦ granted a.0 a.1 (rw (h, reserve_storage) refl) h
          | inr (e, h) ↦
              refused (quota_exceeded e.used e.quota e.projected) (rw (h, reserve_storage) refl)
        ]

pub reserve_events-cases :
    (core : Core)
    → (reserve_events core
        ≡ (err (internal (codes "audit event counter capacity exhausted")), core))
      ⊎ (reserve_events core ≡ (ok tt, set_gauges (set_audit_events (λ used. used + 2)) core))
unfolding reserve_events reserve_audit_events
reserve_events-cases core =
    elim (Option-cases (reserve_audit_events core.gauges.storage_audit_chain_events)) [
      | inl h ↦ inl (rw (h, reserve_events) refl)
      | inr (counter, h) ↦
          let sum : counter ≡ core.gauges.storage_audit_chain_events + 2 = ground arith in
          inr (
            rw (h, reserve_events)
              (ap (λ k. (ok tt, set_gauges (set_audit_events (λ used. k)) core)) sum))
    ]

-- A connection changes no gauge, and no file but for a new one.
pub record Connected (world : Bytes) (core : Core) (out : Result WriteError OpenedWorldKind × Core)
    : Type 0 where
  pub gauges : out.1.gauges ≡ core.gauges
  pub files : SameFiles world core.files out.1.files

checked :
    (w : Run) (world : Bytes) (kind : OpenedWorldKind) (core : Core)
    → Connected world core (check_shape w kind core)
checked w world kind core = elim (Bool-cases w.poisoned) [
  | inl p ↦ rw p (record { gauges = refl; files = same_files refl })
  | inr p ↦ elim (Result-cases w.opens) [
    | inl (u, h) ↦ rw (p, h) (record { gauges = refl; files = same_files refl })
    | inr (e, h) ↦ rw (p, h) (record { gauges = refl; files = same_files refl })
  ]
]

opened : (w : Run) (world : Bytes) (core : Core) → Connected world core (open_file w world core)
opened w world core = elim (Result-cases w.opens) [
  | inl (u, h) ↦ rw h (record { gauges = refl; files = same_files refl })
  | inr (e, h) ↦ rw h (record { gauges = refl; files = same_files refl })
]

filed :
    (w : Run) (world : Bytes) (core : Core)
    → lookup world core.files ≡ none
    → Connected world core (create_file w world core)
filed w world core absent = elim (Result-cases w.minted) [
  | inr (e, h) ↦ rw h (record { gauges = refl; files = same_files refl })
  | inl (generation, h) ↦ elim (Result-cases w.opens) [
    | inr (e, k) ↦ rw (h, k) (record { gauges = refl; files = same_files refl })
    | inl (u, k) ↦ rw (h, k) (record { gauges = refl; files = new_file generation absent refl })
  ]
]

pub cached_write_conn-Connected :
    (w : Run) (world : Bytes) (core : Core) → Connected world core (cached_write_conn w world core)
unfolding cached_write_conn
cached_write_conn-Connected w world core = elim (Option-cases (lookup world core.write_conns)) [
  | inr (kind, h) ↦ rw (h, cached_write_conn) (checked w world kind core)
  | inl h ↦ elim (Option-cases (lookup world core.files)) [
    | inr (f, k) ↦ rw (h, k, cached_write_conn) (opened w world core)
    | inl k ↦ rw (h, k, cached_write_conn) (filed w world core k)
  ]
]

pub cached_existing_write_conn-Connected :
    (w : Run) (world : Bytes) (core : Core)
    → Connected world core (cached_existing_write_conn w world core)
unfolding cached_existing_write_conn
cached_existing_write_conn-Connected w world core =
    elim (Option-cases (lookup world core.write_conns)) [
      | inr (kind, h) ↦ rw (h, cached_existing_write_conn) (checked w world kind core)
      | inl h ↦ elim (Option-cases (lookup world core.files)) [
        | inr (f, k) ↦ rw (h, k, cached_existing_write_conn) (opened w world core)
        | inl k ↦
            rw (h, k, cached_existing_write_conn)
              (record { gauges = refl; files = same_files refl })
      ]
    ]
