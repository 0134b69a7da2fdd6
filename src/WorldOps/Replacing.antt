-- ===== src/WorldOps/Replacing.antt =====
-- `replace_write` of core/src/world_ops.rs keeps the gauges exact.
use audite_db.WorldOps.Connections.{refused, granted, reserve_storage-Outcome}
use audite_db.Prelude.{
  some-injective, ℕ, ◌+◌, ◌≡◌, refl, sym, ap, ◌∙◌, subst, ◌≤◌, Option, none, some, Option-cases,
  inl, inr, List, ok, Result-cases, ok-injective, >>=-eq-ok, length, leb, leb→le, arith, Bool-cases,
}
use audite_db.Prelude.Assoc.{lookup, lookup-insert}
use audite_db.Prelude.Text.{Bytes}
use audite_db.Prelude.Parse.{usize_max}
use audite_db.Timeline.{Crypto, timeline_seq}
use audite_db.Auth.{WritePermit}
use audite_db.EventLog.{replace_verb}
use audite_db.Audit.Retention.{WorldDb}
use audite_db.Cas.Estimates.{
  ReplaceQuotaSnapshot, replace_quota_snapshot, missing_body_len, read_body,
  prunable_body_len_after_next_body, retained_floor_after_next_body, estimated_current_floor,
}
use audite_db.Cas.{total_len}
use audite_db.MemoryStore.{checked_add, write_with_quota, is_persistent}
use audite_db.Storage.{Reservation, quota_of, reserve_storage_after_prune}
use audite_db.WorldStore.{WorldFile, WriteAuditResult}
use audite_db.WorldStore.Usage.{Transacted, write_with_audit-Transacted}
use audite_db.WorldOps.{Settings, Core, Run, ReplaceRequest}
use audite_db.WorldOps.Steps.{on_error, ◌>>◌}
use audite_db.WorldOps.Durable.{
  set_gauges, set_body_bytes, reserve_events, release_storage, release_events, tables_of, new_world,
}
use audite_db.WorldOps.Guards.{
  ensure_write_permit, check_write_preconditions, clear_tombstone, durable_written,
}
use audite_db.WorldOps.Replace.{replace_transaction, replace_durable, replace_memory, replace_write}
use audite_db.WorldOps.Totals.{
  Accounted, Well-lookup, SameFiles, same_files, new_file, SameFiles-Accounted,
}
use audite_db.WorldOps.Transactions.{
  TransactionOutcome-stopped, TransactionOutcome-Finished, with_files, replace_tx,
  replace_transaction-Outcome,
}
use audite_db.WorldOps.Accounts.{
  clear_tombstone-Accounted, clear_tombstone-bytes, tell-Accounted, stored_in_memory-Accounted,
  reserved_gauges, settled-Accounted, under_reservations,
}

fresh-prunable :
    (c : Crypto) (generation body : Bytes) (n : ℕ)
    → 1 ≤ n
    → prunable_body_len_after_next_body c (new_world generation).db body n ≡ ok 0
unfolding new_world prunable_body_len_after_next_body retained_floor_after_next_body
    estimated_current_floor timeline_seq total_len
fresh-prunable c generation body n positive = ground arith

-- A world that is not there has the snapshot of a new one.
new_world-snapshot :
    (c : Crypto) (generation body : Bytes) (n : ℕ) (s : ReplaceQuotaSnapshot)
    → 1 ≤ n
    → replace_quota_snapshot c none body n ≡ ok s
    → replace_quota_snapshot c (some (new_world generation).db) body n ≡ ok s
unfolding replace_quota_snapshot new_world read_body missing_body_len lookup
new_world-snapshot c generation body n s positive h =
    rw (fresh-prunable c generation body n positive) h

snapshot_len :
    (c : Crypto) (db : Option WorldDb) (body : Bytes) (n : ℕ) (s : ReplaceQuotaSnapshot)
    → replace_quota_snapshot c db body n ≡ ok s
    → s.candidate_cas_len ≤ length body
unfolding replace_quota_snapshot missing_body_len
snapshot_len c none body n s h =
    let e = ok-injective h in omega (arith, ap (λ x. x.candidate_cas_len) e)
snapshot_len c (some db) body n s h =
    let (previous, h1, h2) = >>=-eq-ok (read_body db) _ h in
    let (prunable, h3, h4) = >>=-eq-ok (prunable_body_len_after_next_body c db body n) _ h2 in
    let e = ap (λ x. x.candidate_cas_len) (ok-injective h4) in ground (arith, e)

module _ (c : Crypto) (s : Settings) (w : Run) (world : Bytes) (req : ReplaceRequest) (core : Core)
    (a : Accounted core) (positive : 1 ≤ s.retained_body_count)
    (bound : quota_of s.max_storage_bytes ≤ usize_max)
    (room : core.gauges.storage_body_bytes + length req.body ≤ usize_max) where
  -- What a transaction that commits has done, against the snapshot of before.
  committed-Transacted :
      (snapshot : ReplaceQuotaSnapshot) (files : List (Bytes × WorldFile)) (f f' : WorldFile)
      (kind : audite_db.WorldStore.OpenedWorldKind) (cache cache' : List Bytes)
      (result : WriteAuditResult)
      → replace_quota_snapshot c (tables_of core world) req.body s.retained_body_count ≡ ok snapshot
      → SameFiles world core.files files
      → lookup world files ≡ some f
      → audite_db.Audit.Append.Entries.WellFormed f.db
      → replace_tx c s w world req kind f cache ≡ ok (result, f', cache')
      → Transacted snapshot.previous_body_len
          (length req.body)
          snapshot.candidate_cas_len
          snapshot.prunable_cas_len
          f
          f'
          result
  committed-Transacted snapshot files f f' kind cache cache' result taken same found well tx =
      write_with_audit-Transacted c (record { key = s.hmac_key; world = world })
        s.retained_body_count w.times kind req.body req.content_type req.headers cache cache' f f'
        result snapshot positive well (taken_of same) tx
    where
      taken_of :
          SameFiles world core.files files
          → replace_quota_snapshot c (some f.db) req.body s.retained_body_count ≡ ok snapshot
      taken_of (same_files e) =
          let here : lookup world core.files ≡ some f = ap (lookup world) (sym e) ∙ found in
          let tables : tables_of core world ≡ some f.db = rw (here, tables_of) refl in
          ap (λ t. replace_quota_snapshot c t req.body s.retained_body_count) (sym tables) ∙ taken
      taken_of (new_file generation absent e) =
          let tables : tables_of core world ≡ none = rw (absent, tables_of) refl in
          let fresh : new_world generation ≡ f = some-injective (
            sym (lookup-insert world (new_world generation) core.files)
            ∙ ap (lookup world) (sym e)
            ∙ found) in
          subst
            (λ x. replace_quota_snapshot c (some x.db) req.body s.retained_body_count ≡ ok snapshot)
            fresh
            (new_world-snapshot c generation req.body s.retained_body_count snapshot positive (
              ap (λ t. replace_quota_snapshot c t req.body s.retained_body_count) (sym tables)
              ∙ taken))

  -- A write to a durable world keeps the gauges exact, whether it commits or stops.
  pub replace_durable-Accounted : Accounted (replace_durable c s w world req core).1
  unfolding replace_durable
  replace_durable-Accounted =
      elim (Result-cases
        (replace_quota_snapshot c (tables_of core world) req.body s.retained_body_count)) [
          | inr (e, h) ↦ rw h a
          | inl (snapshot, h) ↦
              elim (Option-cases (checked_add (length req.body) snapshot.candidate_cas_len)) [
                | inl k ↦ rw (h, k) a
                | inr (asked, k) ↦
                    elim (reserve_storage-Outcome s snapshot.previous_body_len asked
                      snapshot.prunable_cas_len core) [
                        | refused e r ↦ rw (h, k, r) a
                        | granted counter pending r eq ↦
                            rw (h, k, r) (under snapshot asked counter pending h k eq)
                      ]
              ]
        ]
    where
      under :
          (snapshot : ReplaceQuotaSnapshot) (asked counter : ℕ) (pending : Reservation)
          → replace_quota_snapshot c (tables_of core world) req.body s.retained_body_count
            ≡ ok snapshot
          → checked_add (length req.body) snapshot.candidate_cas_len ≡ some asked
          → reserve_storage_after_prune s.max_storage_bytes core.gauges.storage_body_bytes
              snapshot.previous_body_len asked snapshot.prunable_cas_len
            ≡ ok (counter, pending)
          → Accounted
              (on_error
                (release_storage pending)
                (reserve_events
                  >> on_error release_events (replace_transaction c s w world req snapshot pending))
                (set_gauges (set_body_bytes (λ used. counter)) core)).1
      under snapshot asked counter pending taken sum eq =
          let outcome =
            replace_transaction-Outcome c s w world req snapshot pending
              (reserved_gauges counter core) in
          under_reservations s world core counter pending snapshot.previous_body_len
            (length req.body) snapshot.candidate_cas_len snapshot.prunable_cas_len a
            snapshot.previous_body_len asked eq
            (replace_transaction c s w world req snapshot pending)
            (λ e after st. TransactionOutcome-stopped _ _ _ _ _ outcome e after st)
            (λ result after st.
              let m = TransactionOutcome-Finished _ _ _ _ _ outcome result after st in
              let before = with_files m.files core in
              let b = SameFiles-Accounted world core before m.same refl a in
              settled-Accounted s world core counter pending snapshot.previous_body_len
                (length req.body) snapshot.candidate_cas_len snapshot.prunable_cas_len a before
                after m.f m.f' result snapshot.previous_body_len asked b refl m.found
                (committed-Transacted snapshot m.files m.f m.f' m.kind m.verified m.cache result
                  taken m.same m.found (Well-lookup world m.f m.files b.well m.found) m.ran)
                m.written m.settles bound
                (omega (
                  arith,
                  room,
                  snapshot_len c (tables_of core world) req.body s.retained_body_count snapshot
                      taken,
                ))
                (ground (arith, sum)) eq)

replace_memory-Accounted :
    (c : Crypto) (s : Settings) (world : Bytes) (req : ReplaceRequest) (core : Core)
    → Accounted core
    → Accounted (replace_memory c s world req core).1
unfolding replace_memory
replace_memory-Accounted c s world req core a =
    elim (Result-cases (
      write_with_quota c world req.body req.content_type req.headers s.max_memory_bytes core.mem)) [
        | inr (e, h) ↦ rw (h, replace_memory) a
        | inl (done, h) ↦ rw (h, replace_memory) (stored_in_memory-Accounted done.1 core a)
      ]

-- A write keeps the gauges exact on all its branches, errors included: the bytes, the current bodies,
-- the retained bodies and the events that are counted are those of the files. At least one body is
-- retained, the quota is a word, and the counted bytes leave room for a body in a word.
pub replace_write-Accounted :
    (c : Crypto) (s : Settings) (w : Run) (permit : WritePermit) (req : ReplaceRequest)
    (core : Core)
    → Accounted core
    → 1 ≤ s.retained_body_count
    → quota_of s.max_storage_bytes ≤ usize_max
    → core.gauges.storage_body_bytes + s.max_world_bytes ≤ usize_max
    → Accounted (replace_write c s w permit req core).1
unfolding replace_write
replace_write-Accounted c s w permit req core a positive bound room =
    let core1 = clear_tombstone permit.world core in
    let a1 = clear_tombstone-Accounted permit.world core a in
    let memory = replace_memory-Accounted c s permit.world req core1 a1 in
    elim (Result-cases (ensure_write_permit permit)) [
      | inr (e, h) ↦ rw h a
      | inl (u, h) ↦ elim (Bool-cases (leb (length req.body) s.max_world_bytes)) [
        | inr k ↦ rw (h, k) a
        | inl k ↦ elim (Bool-cases w.admitted) [
          | inr l ↦ rw (h, k, l) a
          | inl l ↦
              elim (Result-cases
                (check_write_preconditions c s permit.world req.preconditions core1)) [
                  | inr (e, m) ↦ rw (h, k, l, m) a1
                  | inl (v, m) ↦
                      let durable =
                        replace_durable-Accounted c s w permit.world req core1 a1 positive bound (
                          omega (
                            arith,
                            room,
                            clear_tombstone-bytes permit.world core,
                            leb→le (length req.body) s.max_world_bytes k,
                          )) in
                      elim (Bool-cases (is_persistent permit.world)) [
                        | inl d ↦
                            elim (Result-cases (replace_durable c s w permit.world req core1).0) [
                              | inr (e, t) ↦ rw (h, k, l, m, d, t) durable
                              | inl (result, t) ↦
                                  rw (h, k, l, m, d, t)
                                    (tell-Accounted s replace_verb (durable_written result)
                                      (replace_durable c s w permit.world req core1).1 durable)
                            ]
                        | inr d ↦
                            elim (Result-cases (replace_memory c s permit.world req core1).0) [
                              | inr (e, t) ↦ rw (h, k, l, m, d, t) memory
                              | inl (done, t) ↦
                                  rw (h, k, l, m, d, t)
                                    (tell-Accounted s replace_verb done
                                      (replace_memory c s permit.world req core1).1 memory)
                            ]
                      ]
                ]
        ]
      ]
    ]
