-- ===== src/Audit/Access.antt =====
-- core/src/audit.rs: the audits of a world that its callers run, from the full verification to the
-- check of the last event.
pub mod Reports
pub mod Heads
pub mod Tails
use audite_db.Prelude.{
  ℕ, ◌+◌, ◌-◌, ◌≡◌, refl, Bool, true, false, not, Option, none, some, List, [], ◌∷◌, ◌++◌, Result,
  ok, err, require, map_err, ok_or, ◌>>=◌, ◌>>◌, length, if◌then◌else◌,
}
use audite_db.Prelude.Text.{Bytes, codes}
use audite_db.Prelude.Int.{ℤ, pos, eq_ℤ, ltb_ℤ}
use audite_db.Timeline.{Crypto, InvalidHex, wrong_length, not_lower_hex, world_generation_of}
use audite_db.Audit.Events.{EventRow, Header, Entry, VerifyBreak}
use audite_db.Audit.Retention.{
  StorageError, corrupt_error, invalid_query, invalid_parameter_name, WorldDb, hash_bodies,
  index_shape, load_inner, tail_unchecked,
}
use audite_db.Audit.Bodies.{VerifyAccumulator, break_of, verify_tail_body, verify_live_body}
use audite_db.Audit.Verify.{Chain, verify_event}
use audite_db.Audit.Walk.{
  JoinedRow, joined, entries, audit_select, initial, push_header, no_break, VerifyOk, ChainStamp,
  ChainStampRead, VerifyCapturedReport, valid, broken, verify_statement_capture,
}

pub data AuditError : Type 0 where
  storage : StorageError → AuditError
  chain_broken : VerifyBreak → AuditError

abbrev pub stored {ℓ} : {A : Type ℓ} → Result StorageError A → Result AuditError A
stored r = map_err storage r

abbrev invalid_hex_name : InvalidHex → Bytes
invalid_hex_name wrong_length = codes "WrongLength"
invalid_hex_name not_lower_hex = codes "NotLowerHex"

-- `world_schema::generation`, of a table with its row and column
unfoldable pub read_generation : WorldDb → Result StorageError Bytes
read_generation db =
    map_err (λ e. corrupt_error (codes "invalid stage_meta.generation: " ++ invalid_hex_name e))
      (world_generation_of db.generation)

-- A world under the engine's key, as the callers name it.
pub record Place : Type 0 where
  pub key : Bytes
  pub world : Bytes

abbrev pub chain_of : Place → Bytes → Chain
chain_of p generation = record { key = p.key; world = p.world; generation = generation }

abbrev pub or_broken : Option VerifyBreak → Result AuditError (Unit {0})
or_broken b = map_err chain_broken (no_break b)

abbrev pub last_entry {ℓ} : {A : Type ℓ} → List A → Option A
last_entry [] = none
last_entry (x ∷ xs) = let later = last_entry xs in elim later [ some y ↦ some y | none ↦ some x ]

-- `AUDIT_TAIL_SELECT`
abbrev pub audit_tail_select : WorldDb → List JoinedRow
audit_tail_select db = elim (last_entry (entries db)) [ none ↦ [] | some e ↦ joined e ]

-- The loop of `latest_event_with_headers_tx`.
unfoldable pub collect_tail :
    List JoinedRow → Option EventRow → List Header → Result StorageError (Option Entry)
collect_tail [] none headers = ok none
collect_tail [] (some event) headers = ok (some (event, headers))
collect_tail ((row, h) ∷ rows) none headers = collect_tail rows (some row) (push_header headers h)
collect_tail ((row, h) ∷ rows) (some event) headers =
    let rest = collect_tail rows (some event) (push_header headers h) in
    if not (eq_ℤ event.id row.id) then err invalid_query else rest

unfoldable pub latest_event_with_headers : WorldDb → Result StorageError (Option Entry)
unfolding collect_tail
latest_event_with_headers db = collect_tail (audit_tail_select db) none []

-- `SELECT hmac FROM events WHERE id < ?1 ORDER BY id DESC LIMIT 1`, or the empty string
unfoldable pub previous_hmac : List EventRow → ℤ → Bytes → Bytes
previous_hmac [] tail_id before = before
previous_hmac (row ∷ rows) tail_id before =
    previous_hmac rows tail_id (if ltb_ℤ row.id tail_id then row.hmac else before)

-- `verify_tail_event`
unfoldable pub verify_tail_event :
    Crypto → Chain → EventRow → List Header → Bytes → ℕ → Option VerifyBreak
verify_tail_event c chain row headers prev_hmac event_count =
    elim (verify_event c chain tail_unchecked row headers
      (initial prev_hmac (event_count - 1) tail_unchecked none)) [ ok st ↦ none | err b ↦ some b ]

unfoldable pub require_current_tail_intact : Crypto → Place → WorldDb → Result AuditError (Unit {0})
unfolding latest_event_with_headers previous_hmac verify_tail_event
require_current_tail_intact c p db = do
  generation ← stored (read_generation db)
  latest ← stored (latest_event_with_headers db)
  tail ← ok_or latest (chain_broken (break_of 0 (codes "at-least-one-event") (codes "no-events")))
  or_broken (
      verify_tail_event c (chain_of p generation) tail.0 tail.1
        (previous_hmac db.events tail.0.id []) (length db.events))
  tail_break ← stored (verify_tail_body c db tail.0 (length db.events - 1))
  or_broken tail_break
  or_broken (verify_live_body c db)

-- `verify_current_tail_body_tx`
unfoldable pub verify_current_tail_body :
    Crypto → WorldDb → Result StorageError (Option VerifyBreak)
unfolding latest_event_with_headers
verify_current_tail_body c db = do
  latest ← latest_event_with_headers db
  (elim latest [ none ↦ ok none | some tail ↦ verify_tail_body c db tail.0 (length db.events - 1) ])

-- `require_intact`
unfoldable pub require_intact : VerifyCapturedReport → Result AuditError VerifyOk
require_intact (valid report head stamp) = ok report
require_intact (broken b) = err (chain_broken b)

-- `verify_appendable_tx`: the chain under which an append may be signed
unfoldable pub verify_appendable : Crypto → Place → WorldDb → Bool → Result AuditError Chain
unfolding verify_current_tail_body require_intact
verify_appendable c p db allow_empty = do
  generation ← stored (read_generation db)
  retention ← stored (load_inner c db index_shape)
  report ← stored (
      verify_statement_capture c (chain_of p generation) retention (audit_select db) allow_empty
        none)
  intact ← require_intact report
  tail_break ← stored (verify_current_tail_body c db)
  or_broken tail_break
  or_broken (verify_live_body c db)
  ok (chain_of p generation)

-- `verify_world_tx`
unfoldable pub verify_world :
    Crypto → Place → WorldDb → Bool → Option ℤ → Result StorageError VerifyCapturedReport
verify_world c p db allow_empty capture_stamp_at = do
  generation ← read_generation db
  retention ← load_inner c db hash_bodies
  verify_statement_capture c (chain_of p generation) retention (audit_select db) allow_empty
      capture_stamp_at

-- `verify_chain_via_conn`
unfoldable pub verify_chain : Crypto → Place → WorldDb → Result StorageError VerifyCapturedReport
unfolding verify_world
verify_chain c p db = do
  report ← verify_world c p db false none
  ok (elim report [
    | broken b ↦ broken b
    | valid o h s ↦ elim (verify_live_body c db) [ none ↦ valid o h s | some b ↦ broken b ]
  ])

-- `chain_head_via_conn`
unfoldable pub chain_head : Crypto → Place → WorldDb → Result AuditError (Option ChainStamp)
unfolding verify_world
chain_head c p db = do
  report ← stored (verify_world c p db true none)
  (elim report [ valid o head s ↦ ok head | broken b ↦ err (chain_broken b) ])

-- `chain_stamp_via_conn`
unfoldable pub chain_stamp : Crypto → Place → WorldDb → ℤ → Result AuditError ChainStampRead
unfolding verify_world
chain_stamp c p db seq = do
  report ← stored (verify_world c p db true (some seq))
  (elim report [
    | valid o h stamp ↦ ok_or stamp (
        storage
          (invalid_parameter_name (codes "audit stamp verifier did not return a stamp result")))
    | broken b ↦ err (chain_broken b)
  ])
