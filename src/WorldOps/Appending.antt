-- ===== src/WorldOps/Appending.antt =====
-- `append_write` of core/src/world_ops.rs keeps the gauges exact.
use audite_db.WorldOps.Connections.{refused, granted, reserve_storage-Outcome}
use audite_db.Prelude.{
  some-injective, ℕ, ◌+◌, ◌≡◌, refl, sym, ap, ◌∙◌, subst, ◌≤◌, true, Option, none, some,
  Option-cases, inl, inr, List, Result, ok, err, Result-cases, ok-injective, ok_or, length, leb,
  arith, Bool-cases,
}
use audite_db.Prelude.Assoc.{lookup}
use audite_db.Prelude.Text.{Bytes}
use audite_db.Prelude.Parse.{usize_max}
use audite_db.Timeline.{Crypto}
use audite_db.Auth.{WritePermit}
use audite_db.Audit.Retention.{StorageError, WorldDb}
use audite_db.Cas.Estimates.{missing_body_len, read_body}
use audite_db.Audit.Events.{Header}
use audite_db.WorldOps.{AppendRequest, not_found}
use audite_db.WorldOps.Append.{
  append_transaction, append_durable, append_memory, append_write, read_cas, current_metadata,
}
use audite_db.WorldOps.Transactions.{append_transaction-Outcome}
use audite_db.Cas.Estimates.{append_body_len_if_missing, append_prunable_body_len_after_next_write}
use audite_db.WorldStore.Usage.{append_with_audit-Transacted, body_len}
use audite_db.EventLog.{append_verb}
use audite_db.WorldStore.{metadata}
use audite_db.Prelude.{length-append}
use audite_db.MemoryStore.{checked_add, append_with_quota, is_persistent, is_memory_world}
use audite_db.Storage.{Reservation, quota_of, reserve_storage_after_prune}
use audite_db.WorldStore.{WorldFile}
use audite_db.WorldStore.Usage.{Transacted}
use audite_db.WorldOps.{WriteError, Settings, Core, Run}
use audite_db.WorldOps.Steps.{on_error, ◌>>◌}
use audite_db.WorldOps.Durable.{
  set_gauges, set_body_bytes, reserve_events, release_storage, release_events, tables_of,
}
use audite_db.WorldOps.Guards.{
  ensure_write_permit, check_write_preconditions, clear_tombstone, durable_written,
}
use audite_db.WorldOps.Totals.{
  Accounted, Well-lookup, SameFiles, same_files, new_file, SameFiles-Accounted,
}
use audite_db.WorldOps.Transactions.{
  TransactionOutcome-stopped, TransactionOutcome-Finished, with_files,
}
use audite_db.WorldOps.Accounts.{
  clear_tombstone-Accounted, clear_tombstone-bytes, tell-Accounted, stored_in_memory-Accounted,
  reserved_gauges, settled-Accounted, under_reservations,
}

read_cas-ok : (r : Result StorageError (Option ℕ)) (n : ℕ) → read_cas r ≡ ok n → r ≡ ok (some n)
read_cas-ok (ok none) n h = absurd (cc)
read_cas-ok (ok (some k)) n h = ap (λ x. ok (some x)) (ok-injective h)
read_cas-ok (err e) n h = absurd (cc)

candidate-len :
    (c : Crypto) (db : Option WorldDb) (body : Bytes) (candidate : ℕ)
    → append_body_len_if_missing c db body ≡ ok (some candidate)
    → (b : WorldDb) × (db ≡ some b) × (candidate ≤ body_len b + length body)
unfolding append_body_len_if_missing missing_body_len read_body
candidate-len c none body candidate h = absurd (cc)
candidate-len c (some db) body candidate h = elim (Option-cases db.stage_body) [
  | inl e ↦ absurd (ground arith)
  | inr (current, e) ↦ (db, refl, ground (arith, length-append current body))
]

module _ (c : Crypto) (s : Settings) (w : Run) (world body : Bytes) (stored_len : ℕ)
    (content_type : Bytes) (headers : List Header) (core : Core) (a : Accounted core)
    (positive : 1 ≤ s.retained_body_count) (bound : quota_of s.max_storage_bytes ≤ usize_max)
    (f0 : WorldFile) (here : lookup world core.files ≡ some f0) (len : stored_len ≡ body_len f0.db)
    (room : core.gauges.storage_body_bytes + (stored_len + length body) ≤ usize_max) where
  same_file :
      (files : List (Bytes × WorldFile)) (f : WorldFile)
      → SameFiles world core.files files
      → lookup world files ≡ some f
      → f0 ≡ f
  same_file files f (same_files e) found =
      some-injective (sym here ∙ ap (lookup world) (sym e) ∙ found)
  same_file files f (new_file generation absent e) found =
      let clash : some f0 ≡ none = sym here ∙ absent in absurd (cc)

  tables : tables_of core world ≡ some f0.db
  tables = rw (here, tables_of) refl

  -- An append to a durable world keeps the gauges exact, whether it commits or stops.
  pub append_durable-Accounted :
      Accounted (append_durable c s w world body stored_len content_type headers core).1
  unfolding append_durable
  append_durable-Accounted =
      elim (Result-cases (read_cas (append_body_len_if_missing c (tables_of core world) body))) [
        | inr (e, h) ↦ rw h a
        | inl (candidate, h) ↦
            elim (Result-cases (
              read_cas (
                append_prunable_body_len_after_next_write c (tables_of core world) body
                  s.retained_body_count))) [
                    | inr (e, i) ↦ rw (h, i) a
                    | inl (prunable, i) ↦
                        elim (Option-cases (checked_add (length body) candidate)) [
                          | inl k ↦ rw (h, i, k) a
                          | inr (asked, k) ↦
                              elim (reserve_storage-Outcome s 0 asked prunable core) [
                                | refused e r ↦ rw (h, i, k, r) a
                                | granted counter pending r eq ↦
                                    rw (h, i, k, r)
                                      (under candidate prunable asked counter pending
                                        (read_cas-ok
                                          (append_body_len_if_missing c (tables_of core world) body)
                                          candidate h)
                                        (read_cas-ok
                                          (append_prunable_body_len_after_next_write c
                                            (tables_of core world) body s.retained_body_count)
                                          prunable i)
                                        k eq)
                              ]
                        ]
                  ]
      ]
    where
      under :
          (candidate prunable asked counter : ℕ) (pending : Reservation)
          → append_body_len_if_missing c (tables_of core world) body ≡ ok (some candidate)
          → append_prunable_body_len_after_next_write c
              (tables_of core world)
              body
              s.retained_body_count
            ≡ ok (some prunable)
          → checked_add (length body) candidate ≡ some asked
          → reserve_storage_after_prune s.max_storage_bytes core.gauges.storage_body_bytes 0 asked
              prunable
            ≡ ok (counter, pending)
          → Accounted
              (on_error
                (release_storage pending)
                (reserve_events
                  >> on_error release_events (
                      append_transaction c s w world body stored_len content_type headers candidate
                        prunable pending))
                (set_gauges (set_body_bytes (λ used. counter)) core)).1
      under candidate prunable asked counter pending hc hp sum eq =
          let outcome =
            append_transaction-Outcome c s w world body stored_len content_type headers candidate
              prunable pending (reserved_gauges counter core) in
          let (b, is, small) = candidate-len c (tables_of core world) body candidate hc in
          let db : b ≡ f0.db = some-injective (sym is ∙ tables) in
          under_reservations s world core counter pending stored_len (stored_len + length body)
            candidate prunable a 0 asked eq
            (append_transaction c s w world body stored_len content_type headers candidate prunable
              pending)
            (λ e after st. TransactionOutcome-stopped _ _ _ _ _ outcome e after st)
            (λ result after st.
              let m = TransactionOutcome-Finished _ _ _ _ _ outcome result after st in
              let before = with_files m.files core in
              let books = SameFiles-Accounted world core before m.same refl a in
              let one = same_file m.files m.f m.same m.found in
              let t =
                append_with_audit-Transacted c (record { key = s.hmac_key; world = world })
                  s.retained_body_count w.times body content_type headers m.verified m.cache m.f
                  m.f' result candidate prunable positive
                  (Well-lookup world m.f m.files books.well m.found)
                  (ap (λ x. append_body_len_if_missing c (some x.db) body) (sym one)
                    ∙ ap (λ x. append_body_len_if_missing c x body) (sym tables)
                    ∙ hc)
                  (ap
                      (λ x.
                        append_prunable_body_len_after_next_write c (some x.db) body
                          s.retained_body_count)
                      (sym one)
                    ∙ ap
                        (λ x.
                          append_prunable_body_len_after_next_write c x body s.retained_body_count)
                        (sym tables)
                    ∙ hp)
                  m.ran in
              let same_len : body_len m.f.db ≡ stored_len =
                ap (λ x. body_len x.db) (sym one) ∙ sym len in
              settled-Accounted s world core counter pending stored_len (stored_len + length body)
                candidate prunable a before after m.f m.f' result 0 asked books refl m.found
                (subst (λ l. Transacted l (l + length body) candidate prunable m.f m.f' result)
                  same_len t)
                m.written m.settles bound (omega (arith, room, small, ap body_len db, len))
                (ground (arith, sum)) eq)

metadata-len :
    (found : Option WorldFile) (m : ℕ × Bytes × List Header)
    → metadata found ≡ ok (some m)
    → (f : WorldFile) × (found ≡ some f) × (m.0 ≡ body_len f.db)
unfolding metadata read_body
metadata-len none m h = absurd (cc)
metadata-len (some f) m h = elim (Option-cases f.db.stage_body) [
  | inl e ↦ absurd (ground arith)
  | inr (body, e) ↦ (f, refl, ground arith)
]

current_metadata-file :
    (world : Bytes) (core : Core) (found : Option (ℕ × Bytes × List Header))
    (m : ℕ × Bytes × List Header)
    → is_persistent world ≡ true
    → current_metadata world core ≡ ok found
    → ok_or {E = WriteError} found not_found ≡ ok m
    → (f : WorldFile) × (lookup world core.files ≡ some f) × (m.0 ≡ body_len f.db)
unfolding is_persistent
current_metadata-file world core found m d h k = elim (Bool-cases (is_memory_world world)) [
  | inl t ↦ absurd (ground arith)
  | inr t ↦ metadata-len (lookup world core.files) m (ground arith)
]

append_memory-Accounted :
    (c : Crypto) (s : Settings) (world body : Bytes) (core : Core)
    → Accounted core
    → Accounted (append_memory c s world body core).1
unfolding append_memory
append_memory-Accounted c s world body core a =
    elim (Result-cases (append_with_quota c world body s.max_memory_bytes core.mem)) [
      | inr (e, h) ↦ rw (h, append_memory) a
      | inl ((none, mem), h) ↦ rw (h, append_memory) a
      | inl ((some hash, mem), h) ↦ rw (h, append_memory) (stored_in_memory-Accounted mem core a)
    ]

-- An append keeps the gauges exact on all its branches, errors included. At least one body is
-- retained, the quota is a word, and the counted bytes leave room for a body in a word.
pub append_write-Accounted :
    (c : Crypto) (s : Settings) (w : Run) (permit : WritePermit) (req : AppendRequest) (core : Core)
    → Accounted core
    → 1 ≤ s.retained_body_count
    → quota_of s.max_storage_bytes ≤ usize_max
    → core.gauges.storage_body_bytes + s.max_world_bytes ≤ usize_max
    → Accounted (append_write c s w permit req core).1
unfolding append_write
append_write-Accounted c s w permit req core a positive bound room =
    let core1 = clear_tombstone permit.world core in
    let a1 = clear_tombstone-Accounted permit.world core a in
    let memory = append_memory-Accounted c s permit.world req.body core1 a1 in
    elim (Result-cases (ensure_write_permit permit)) [
      | inr (e, h) ↦ rw h a
      | inl (u, h) ↦ elim (Bool-cases w.admitted) [
        | inr l ↦ rw (h, l) a
        | inl l ↦
            elim (Result-cases
              (check_write_preconditions c s permit.world req.preconditions core1)) [
                | inr (e, m) ↦ rw (h, l, m) a1
                | inl (v, m) ↦ elim (Result-cases (current_metadata permit.world core1)) [
                  | inr (e, i) ↦ rw (h, l, m, i) a1
                  | inl (none, i) ↦ rw (h, l, m, i) a1
                  | inl (some now, i) ↦ elim (Option-cases (checked_add now.0 (length req.body))) [
                    | inl j ↦ rw (h, l, m, i, j) a1
                    | inr (projected, j) ↦ elim (Bool-cases (leb projected s.max_world_bytes)) [
                      | inr k ↦ rw (h, l, m, i, j, k) a1
                      | inl k ↦ elim (Bool-cases (is_persistent permit.world)) [
                        | inr d ↦
                            elim (Result-cases (append_memory c s permit.world req.body core1).0) [
                              | inr (e, t) ↦ rw (h, l, m, i, j, k, d, t) memory
                              | inl (done, t) ↦
                                  rw (h, l, m, i, j, k, d, t)
                                    (tell-Accounted s append_verb done
                                      (append_memory c s permit.world req.body core1).1 memory)
                            ]
                        | inl d ↦
                            let (f, here, len) =
                              current_metadata-file permit.world core1 (some now) now d i refl in
                            let durable =
                              append_durable-Accounted c s w permit.world req.body now.0 now.1 now.2
                                core1 a1 positive bound f here len
                                (ground (arith, room, clear_tombstone-bytes permit.world core)) in
                            elim (Result-cases
                              (append_durable c s w permit.world req.body now.0 now.1 now.2
                                core1).0) [
                                  | inr (e, t) ↦ rw (h, l, m, i, j, k, d, t) durable
                                  | inl (result, t) ↦
                                      rw (h, l, m, i, j, k, d, t)
                                        (tell-Accounted s append_verb (durable_written result)
                                          (append_durable c s w permit.world req.body now.0 now.1
                                            now.2 core1).1
                                          durable)
                                ]
                      ]
                    ]
                  ]
                ]
              ]
      ]
    ]
