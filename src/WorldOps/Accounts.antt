-- ===== src/WorldOps/Accounts.antt =====
-- The gauges of core/src/state.rs through the writes of core/src/world_ops.rs: they stay the totals
-- over the files, on every branch.
use audite_db.WorldOps.Connections.{reserve_events-cases}
use audite_db.Prelude.{
  ℕ, ◌+◌, ◌≡◌, refl, sym, ap, ◌∙◌, subst, ◌≤◌, some, Option-cases, inl, inr, ◌-◌, [], Bool-cases,
  ok, err, Result-cases, arith,
}
use audite_db.Prelude.Assoc.{lookup, insert}
use audite_db.Prelude.Text.{Bytes}
use audite_db.Prelude.Parse.{usize_max}
use audite_db.Storage.{
  Reservation, quota_of, reserve_storage_after_prune, drop_events, drop_reservation,
}
use audite_db.WorldStore.{WorldFile, WriteAuditResult}
use audite_db.WorldStore.Usage.{Transacted, body_len}
use audite_db.WorldOps.{WriteError, Settings, Gauges, Core}
use audite_db.WorldOps.Steps.{Step, on_error, ◌>>◌}
use audite_db.WorldOps.Durable.{
  set_gauges, set_body_bytes, set_audit_events, release_storage, release_events, reserve_events,
  settle,
}
use audite_db.MemoryStore.{MemoryStore, is_memory_world}
use audite_db.EventLog.{ChangeVerb}
use audite_db.WorldOps.Guards.{clear_tombstone, tell, Written, stored_in_memory}
use audite_db.WorldOps.Settling.{
  Figures, dropped-exact, settle-storage_body_bytes, settle-storage_current_body_bytes,
  settle-storage_retained_cas_body_bytes, settle-storage_audit_chain_events,
}
use audite_db.WorldOps.Totals.{
  Well, total, total-insert, total-member, Well-insert, cas_len, event_count, Accounted, SameFiles,
  same_files, SameFiles-Accounted,
}

-- The gauges while a write has both of its reservations.
abbrev pub reserved_gauges : ℕ → Core → Core
reserved_gauges counter core =
    set_gauges (set_audit_events (λ used. used + 2))
      (set_gauges (set_body_bytes (λ used. counter)) core)

module _ (s : Settings) (world : Bytes) (core : Core) (counter : ℕ) (r : Reservation)
    (previous next candidate prunable : ℕ) (a : Accounted core) where
  -- The engine after a transaction that committed.
  pub settled-Accounted :
      (before after : Core) (f f' : WorldFile) (result : WriteAuditResult) (credit asked : ℕ)
      → Accounted before
      → before.gauges ≡ core.gauges
      → lookup world before.files ≡ some f
      → Transacted previous next candidate prunable f f' result
      → after.files ≡ insert world f' before.files
      → after.gauges
        ≡ settle r candidate prunable previous next next result
            (reserved_gauges counter core).gauges
      → quota_of s.max_storage_bytes ≤ usize_max
      → core.gauges.storage_body_bytes + candidate ≤ usize_max
      → asked + previous ≡ next + candidate + credit
      → reserve_storage_after_prune s.max_storage_bytes core.gauges.storage_body_bytes credit asked
          prunable
        ≡ ok (counter, r)
      → Accounted after
  settled-Accounted before after f f' result credit asked b g found t files gauges bound room
        balance granted =
      let c0 = total body_len before.files in
      let r0 = total cas_len before.files in
      let c1 = total body_len (insert world f' before.files) in
      let r1 = total cas_len (insert world f' before.files) in
      let bytes0 : core.gauges.storage_body_bytes ≡ c0 + r0 =
        ap (λ x. x.storage_body_bytes) (sym g) ∙ b.bytes in
      let body_sum = total-insert body_len world f f' before.files found in
      let cas_sum = total-insert cas_len world f f' before.files found in
      let event_sum = total-insert event_count world f f' before.files found in
      let figures : Figures s.max_storage_bytes r c0 r0 c1 r1 previous next candidate prunable
          counter =
        record {
          credit = credit;
          asked = asked;
          bound = bound;
          reserved =
              subst
                (λ u.
                  reserve_storage_after_prune s.max_storage_bytes u credit asked prunable
                  ≡ ok (counter, r))
                bytes0 granted;
          balance = balance;
          bodies = omega (arith, body_sum, t.before, t.after);
          cas = omega (arith, cas_sum, t.retained);
          room = omega (arith, room, bytes0);
        } in
      let g1 = (reserved_gauges counter core).gauges in
      let member = total-member body_len world f before.files found in
      record {
        bytes =
            ap (λ x. x.storage_body_bytes) gauges
            ∙ settle-storage_body_bytes s.max_storage_bytes r c0 r0 c1 r1 previous next candidate
                prunable counter figures result g1 t.pruned t.kept refl
            ∙ ap (λ l. total body_len l + total cas_len l) (sym files);
        current =
            ap (λ x. x.storage_current_body_bytes) gauges
            ∙ settle-storage_current_body_bytes s.max_storage_bytes r c0 r0 c1 r1 previous next
                candidate prunable counter figures result g1 t.pruned t.kept
                (ap (λ x. x.storage_current_body_bytes) (sym g) ∙ b.current)
                (omega (arith, member, t.before))
            ∙ ap (total body_len) (sym files);
        retained =
            ap (λ x. x.storage_retained_cas_body_bytes) gauges
            ∙ settle-storage_retained_cas_body_bytes s.max_storage_bytes r c0 r0 c1 r1 previous next
                candidate prunable counter figures result g1 t.pruned t.kept
                (ap (λ x. x.storage_retained_cas_body_bytes) (sym g) ∙ b.retained)
            ∙ ap (total cas_len) (sym files);
        events =
            ap (λ x. x.storage_audit_chain_events) gauges
            ∙ settle-storage_audit_chain_events s.max_storage_bytes r c0 r0 c1 r1 previous next
                candidate prunable counter figures result g1 t.pruned t.kept
                (total event_count before.files)
                (ap (λ x. x.storage_audit_chain_events + 2) (sym g) ∙ ap (λ n. n + 2) b.events)
            ∙ omega (arith, ap (total event_count) files, event_sum, t.events);
        well = subst Well (sym files) (Well-insert world f' before.files b.well t.well);
      }

  abbrev core1 : Core
  core1 = set_gauges (set_body_bytes (λ used. counter)) core

  abbrev core2 : Core
  core2 = reserved_gauges counter core

  -- What both guards give back when a write stops.
  released : Gauges → Gauges
  released g = set_body_bytes (λ used. drop_reservation used r) (set_audit_events drop_events g)

  module _ (credit asked : ℕ)
      (granted : reserve_storage_after_prune s.max_storage_bytes core.gauges.storage_body_bytes
          credit asked prunable
        ≡ ok (counter, r)) where
    released-exact : released core2.gauges ≡ core.gauges
    unfolding released drop_events
    released-exact =
        let bytes =
          dropped-exact s.max_storage_bytes core.gauges.storage_body_bytes credit asked prunable
            counter r granted in
        let events : core.gauges.storage_audit_chain_events + 2 - 2
            ≡ core.gauges.storage_audit_chain_events =
          omega arith in
        ap (λ b. set_body_bytes (λ used. b) (released core2.gauges)) bytes
        ∙ ap (λ n. set_audit_events (λ used. n) core.gauges) events

    -- The two guards around a step that stops without a trace or leaves the gauges exact.
    pub under_reservations :
        (step : Step WriteAuditResult)
        → ((e : WriteError) (after : Core)
            → step core2 ≡ (err e, after)
            → (after.gauges ≡ core2.gauges) × SameFiles world core.files after.files)
        → ((result : WriteAuditResult) (after : Core)
            → step core2 ≡ (ok result, after)
            → Accounted after)
        → Accounted
            (on_error (release_storage r) (reserve_events >> on_error release_events step) core1).1
    unfolding released
    under_reservations step bad good = elim (reserve_events-cases core1) [
      | inl h ↦ rw h (
          SameFiles-Accounted world core (release_storage r core1) (same_files refl)
            (ap (λ b. set_body_bytes (λ used. b) core.gauges)
              (dropped-exact s.max_storage_bytes core.gauges.storage_body_bytes credit asked
                prunable counter r granted))
            a)
      | inr h ↦ elim (Result-cases (step core2).0) [
        | inl (result, k) ↦ rw (h, k) (good result (step core2).1 (ap (λ x. (x, (step core2).1)) k))
        | inr (e, k) ↦
            let (g, files) = bad e (step core2).1 (ap (λ x. (x, (step core2).1)) k) in
            rw (h, k)
              (SameFiles-Accounted world core (release_storage r (release_events (step core2).1))
                files (ap released g ∙ released-exact) a)
      ]
    ]

-- What the steps around a transaction do to the gauges and the files: nothing.
pub clear_tombstone-Accounted :
    (world : Bytes) (core : Core) → Accounted core → Accounted (clear_tombstone world core)
clear_tombstone-Accounted world core a = elim (Bool-cases (is_memory_world world)) [
  | inl h ↦ rw h a
  | inr h ↦ rw h (SameFiles-Accounted world core _ (same_files refl) refl a)
]

pub clear_tombstone-bytes :
    (world : Bytes) (core : Core)
    → (clear_tombstone world core).gauges.storage_body_bytes ≡ core.gauges.storage_body_bytes
clear_tombstone-bytes world core = elim (Bool-cases (is_memory_world world)) [
  | inl h ↦ rw h refl
  | inr h ↦ rw h refl
]

pub tell-Accounted :
    (s : Settings) (verb : ChangeVerb) (done : Written) (core : Core)
    → Accounted core
    → Accounted (tell s verb done core)
tell-Accounted s verb done core a = elim (Option-cases done.format_event) [
  | inl h ↦ rw h (SameFiles-Accounted [] core _ (same_files refl) refl a)
  | inr (row, h) ↦ rw h (SameFiles-Accounted [] core _ (same_files refl) refl a)
]

pub stored_in_memory-Accounted :
    (mem : MemoryStore) (core : Core) → Accounted core → Accounted (stored_in_memory mem core)
stored_in_memory-Accounted mem core a = SameFiles-Accounted [] core _ (same_files refl) refl a
