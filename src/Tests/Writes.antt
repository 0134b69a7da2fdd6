-- ===== src/Tests/Writes.antt =====
-- The theorems on writes, at a first write to a new world and an append to it.
use audite_db.Cas.Window.{Window, unstarted, Bounded}
use audite_db.WorldStore.Windows.{write_with_audit-Bounded, append_with_audit-Bounded}
use audite_db.Prelude.{
  ℕ, ◌≡◌, refl, Bool, true, false, some, List, [], ◌∷◌, Result, ok, err, arith, ◌≤◌, length,
}
use audite_db.Prelude.Text.{Bytes, codes}
use audite_db.Auth.{write_gate, WritePermit}
use audite_db.Audit.Append.Entries.{WellFormed}
use audite_db.Cas.{total_len}
use audite_db.EventLog.{EventLog}
use audite_db.WorldStore.{WorldFile, created, WriteAuditResult, Times, write_with_audit}
use audite_db.WorldStore.Usage.{Transacted, write_with_audit-Transacted}
use audite_db.WorldOps.{Settings, Core, ReplaceRequest, Run}
use audite_db.WorldOps.Durable.{new_world}
use audite_db.WorldOps.Replace.{replace_write}
use audite_db.WorldOps.Append.{append_write}
use audite_db.WorldOps.Totals.{Accounted, total}
use audite_db.WorldOps.Replacing.{replace_write-Accounted}
use audite_db.WorldOps.Appending.{append_write-Accounted}
use audite_db.Timeline.{world_generation_of, is_lower_hex, timeline_seq}
use audite_db.Prelude.Text.{eq_bytes}
use audite_db.Prelude.Assoc.{lookup, insert}
use audite_db.Prelude.Decimal.{decimal, digits, decimal_ℤ}
use audite_db.Audit.Frame.{
  event_hmac, event_message, fields, field, canonical_headers, sort_headers, insert_header,
  is_canonical_sqlite_utc_timestamp,
}
use audite_db.Audit.Retention.{
  load_inner, read_first_retained_seq, load_body_index, has_body_bearing_events, floor_is_unset,
}
use audite_db.Audit.Bodies.{
  verify_completion, verify_live_body, live_body_head_break, latest_body_event,
}
use audite_db.Audit.Walk.{
  join_all, verify_statement_capture, completed, captured_report, verified_ok, verified_head,
  verified_stamp,
}
use audite_db.Audit.Access.{
  verify_appendable, read_generation, collect_tail, latest_event_with_headers,
  verify_current_tail_body,
}
use audite_db.Audit.Append.{
  append_format_tx, append_tx, signed_row, insert_event, latest_hmac, append_retained_body,
}
use audite_db.Cas.{
  insert_missing, retain_body, mark_retention_started, body_event_exists, first_body_event_seq,
  prune_to_count, prune_below,
}
use audite_db.Cas.Estimates.{
  replace_quota_snapshot, read_body, prunable_body_len_after_next_body,
  retained_floor_after_next_body, missing_body_len, append_body_len_if_missing,
  append_prunable_body_len_after_next_write,
}
use audite_db.WorldStore.{append_with_audit, AuditVerificationCache, is_empty_bootstrap}
use audite_db.WorldStore.Usage.{append_with_audit-Transacted, body_len}
use audite_db.EventLog.{
  ChangeEvent, next_event_id, pop_while_long, mint_change, record_change, send_change,
  evict_if_needed, write_conn_cache_max_entries, replace_verb, ephemeral,
}
use audite_db.EventLog.Bounds.{
  Notifying, NotifySteps, rest, mint, enter, send, NotifySteps-newest, evict_if_needed-ends,
}
use audite_db.Prelude.{◌+◌, last_n}
use audite_db.Tests.Fixtures.{toy, generation_0, noon, place_a}

abbrev world_a : Bytes
world_a = codes "home/a"

abbrev settings : Settings
settings = record {
  hmac_key = codes "key";
  max_world_bytes = 1000;
  max_memory_bytes = 1000;
  max_storage_bytes = some 1000;
  retained_body_count = 2;
  listen_replay_max = 8;
}

abbrev times : Times
times = record { format_at = noon; body_at = noon }

abbrev run : Run
run = record {
  admitted = true;
  minted = ok generation_0;
  opens = ok tt;
  poisoned = false;
  times = times;
}

abbrev permit : WritePermit
permit = record { world = world_a; gate = write_gate }

abbrev no_preconditions : audite_db.Etag.Preconditions
no_preconditions = record { if_match = []; if_none_match = [] }

abbrev request : ReplaceRequest
request = record {
  body = codes "hi";
  content_type = codes "text/plain";
  headers = [];
  preconditions = no_preconditions;
}

abbrev core_0 : Core
core_0 = record {
  mem = record { entries = []; accounted_bytes = 0 };
  files = (world_a, new_world generation_0) ∷ [];
  write_conns = [];
  verified_audit_worlds = [];
  tombstones = [];
  gauges = record {
    storage_body_bytes = 0;
    storage_current_body_bytes = 0;
    storage_retained_cas_body_bytes = 0;
    storage_audit_chain_events = 0;
  };
  durable_world_count = 0;
  events = record { last_event_id = 0; log = []; sent = [] };
}

Accounted-0 : Accounted core_0
unfolding new_world total total_len
Accounted-0 = record {
  bytes = refl;
  current = refl;
  retained = refl;
  events = refl;
  well = (record { ascending = tt; numbered = tt; owned = tt }, tt);
}

replace_write-Accounted_example : Accounted (replace_write toy settings run permit request core_0).1
replace_write-Accounted_example =
    replace_write-Accounted toy settings run permit request core_0 Accounted-0 (omega arith)
      (omega arith) (omega arith)

append_write-Accounted_example :
    Accounted
      (append_write toy settings run permit
        (record { body = codes "!"; preconditions = no_preconditions })
        core_0).1
append_write-Accounted_example =
    append_write-Accounted toy settings run permit
      (record { body = codes "!"; preconditions = no_preconditions }) core_0 Accounted-0
      (omega arith) (omega arith) (omega arith)

abbrev empty_log : EventLog
empty_log = record { last_event_id = 0; log = []; sent = [] }

abbrev fresh : WorldFile
fresh = new_world generation_0

abbrev is_ok {ℓ κ} : {E : Type ℓ} {A : Type κ} → Result E A → Bool
is_ok (ok a) = true
is_ok (err e) = false

ok-value {ℓ κ} : {E : Type ℓ} {A : Type κ} (m : Result E A) → is_ok m ≡ true → (a : A) × (m ≡ ok a)
ok-value (ok a) h = (a, refl)
ok-value (err e) h = absurd (cc)

writing :
    is_ok
      (write_with_audit toy place_a 2 times created (codes "hi") (codes "text/plain") [] [] fresh)
    ≡ true
unfolding write_with_audit append_with_audit verify_appendable read_generation world_generation_of
    is_lower_hex load_inner read_first_retained_seq load_body_index has_body_bearing_events join_all
    verify_statement_capture completed captured_report verified_ok verified_head verified_stamp
    verify_completion floor_is_unset verify_live_body live_body_head_break latest_body_event
    collect_tail latest_event_with_headers verify_current_tail_body append_format_tx append_tx
    signed_row insert_event event_hmac event_message fields field canonical_headers sort_headers
    insert_header is_canonical_sqlite_utc_timestamp latest_hmac decimal digits decimal_ℤ
    timeline_seq eq_bytes lookup insert insert_missing retain_body append_retained_body
    mark_retention_started body_event_exists first_body_event_seq prune_to_count prune_below
    new_world read_body is_empty_bootstrap
writing = refl

appending :
    is_ok (append_with_audit toy place_a 2 times (codes "!") (codes "text/plain") [] [] fresh)
    ≡ true
unfolding write_with_audit append_with_audit verify_appendable read_generation world_generation_of
    is_lower_hex load_inner read_first_retained_seq load_body_index has_body_bearing_events join_all
    verify_statement_capture completed captured_report verified_ok verified_head verified_stamp
    verify_completion floor_is_unset verify_live_body live_body_head_break latest_body_event
    collect_tail latest_event_with_headers verify_current_tail_body append_format_tx append_tx
    signed_row insert_event event_hmac event_message fields field canonical_headers sort_headers
    insert_header is_canonical_sqlite_utc_timestamp latest_hmac decimal digits decimal_ℤ
    timeline_seq eq_bytes lookup insert insert_missing retain_body append_retained_body
    mark_retention_started body_event_exists first_body_event_seq prune_to_count prune_below
    new_world read_body is_empty_bootstrap
appending = refl

written :
    (v : WriteAuditResult × WorldFile × AuditVerificationCache) × (write_with_audit toy place_a 2
        times created
        (codes "hi")
        (codes "text/plain")
        []
        []
        fresh
      ≡ ok v)
written = ok-value _ writing

appended :
    (v : WriteAuditResult × WorldFile × AuditVerificationCache) × (append_with_audit toy place_a 2
        times
        (codes "!")
        (codes "text/plain")
        []
        []
        fresh
      ≡ ok v)
appended = ok-value _ appending

wf : WellFormed fresh.db
unfolding new_world
wf = record { ascending = tt; numbered = tt; owned = tt }

snapshot :
    replace_quota_snapshot toy (some fresh.db) (codes "hi") 2
    ≡ ok (record { previous_body_len = 0; candidate_cas_len = 2; prunable_cas_len = 0 })
unfolding replace_quota_snapshot new_world read_body prunable_body_len_after_next_body
    retained_floor_after_next_body missing_body_len lookup
snapshot = refl

write_with_audit-Transacted_example : Transacted 0 2 2 0 fresh written.0.1 written.0.0
write_with_audit-Transacted_example =
    write_with_audit-Transacted toy place_a 2 times created (codes "hi") (codes "text/plain") [] []
      written.0.2 fresh written.0.1 written.0.0
      (record { previous_body_len = 0; candidate_cas_len = 2; prunable_cas_len = 0 }) (omega arith)
      wf snapshot written.1

missing_1 : append_body_len_if_missing toy (some fresh.db) (codes "!") ≡ ok (some 1)
unfolding append_body_len_if_missing new_world read_body missing_body_len lookup
missing_1 = refl

prunable_1 :
    append_prunable_body_len_after_next_write toy (some fresh.db) (codes "!") 2 ≡ ok (some 0)
unfolding append_prunable_body_len_after_next_write new_world read_body
    prunable_body_len_after_next_body retained_floor_after_next_body
prunable_1 = refl

append_with_audit-Transacted_example :
    Transacted (body_len fresh.db) (body_len fresh.db + 1) 1 0 fresh appended.0.1 appended.0.0
append_with_audit-Transacted_example =
    append_with_audit-Transacted toy place_a 2 times (codes "!") (codes "text/plain") [] []
      appended.0.2 fresh appended.0.1 appended.0.0 1 0 (omega arith) wf missing_1 prunable_1
      appended.1

-- Two threads: the one that mints first enters the log last, and only its change stays.
abbrev change_of : ℕ → ChangeEvent
change_of id = record { id = id; verb = replace_verb; target = ephemeral world_a; etag = codes "t" }

abbrev quiet : Notifying
quiet = record { shared = empty_log; minted = []; unsent = [] }

abbrev told_two : Notifying
told_two = record {
  shared = record { last_event_id = 2; log = change_of 1 ∷ []; sent = change_of 1 ∷ [] };
  minted = [];
  unsent = change_of 2 ∷ [];
}

two_threads : NotifySteps 1 quiet (change_of 2 ∷ change_of 1 ∷ []) told_two
unfolding mint_change record_change send_change next_event_id pop_while_long
two_threads = mint quiet told_two replace_verb (ephemeral world_a) (codes "t") _ (
    mint _ told_two replace_verb (ephemeral world_a) (codes "t") _ (
      enter _ told_two [] (change_of 2) (change_of 1 ∷ []) _ refl (
        enter _ told_two [] (change_of 1) [] _ refl
          (send _ told_two [] (change_of 1) (change_of 2 ∷ []) _ refl (rest told_two)))))

NotifySteps-newest_example : told_two.shared.log ≡ last_n 1 (change_of 2 ∷ change_of 1 ∷ [])
NotifySteps-newest_example =
    NotifySteps-newest 1 quiet told_two (change_of 2 ∷ change_of 1 ∷ []) refl two_threads

evict_if_needed-ends_example :
    (left : List (Bytes × ℕ)) × (evict_if_needed 1 world_a ((world_a, 0) ∷ []) ≡ some left)
    × (length left ≤ write_conn_cache_max_entries)
    × (lookup world_a left ≡ lookup world_a ((world_a, 0) ∷ []))
unfolding lookup
evict_if_needed-ends_example =
    evict_if_needed-ends {A = ℕ} 1 world_a ((world_a, 0) ∷ []) (refl, tt) (omega arith)

fresh-Window : Window fresh.db
unfolding new_world
fresh-Window = unstarted refl refl refl

write_with_audit-Bounded_example : Bounded 2 fresh.db written.0.1.db
write_with_audit-Bounded_example =
    write_with_audit-Bounded toy place_a 2 times created (codes "hi") (codes "text/plain") [] []
      written.0.2 fresh written.0.1 written.0.0 (omega arith) wf fresh-Window written.1

append_with_audit-Bounded_example : Bounded 2 fresh.db appended.0.1.db
append_with_audit-Bounded_example =
    append_with_audit-Bounded toy place_a 2 times (codes "!") (codes "text/plain") [] []
      appended.0.2 fresh appended.0.1 appended.0.0 (omega arith) wf fresh-Window appended.1
