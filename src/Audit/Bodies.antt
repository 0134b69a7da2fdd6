-- ===== src/Audit/Bodies.antt =====
-- core/src/audit/retention.rs and core/src/audit/live_body.rs: the bodies that the events retain,
-- and the live body, checked against the chain.
use audite_db.Prelude.{
  ℕ, ◌-◌, Bool, true, not, ◌&&◌, ◌||◌, Option, none, some, List, [], ◌∷◌, ◌++◌, Result, ok, err,
  require, map_err, ok_or, ◌>>=◌, ◌>>◌, length, leb, ◌==◌, if◌then◌else◌,
}
use audite_db.Prelude.Assoc.{lookup}
use audite_db.Prelude.Text.{Bytes, codes, eq_bytes}
use audite_db.Prelude.Int.{ℤ, pos, eq_ℤ, ltb_ℤ}
use audite_db.Prelude.Decimal.{decimal_ℤ}
use audite_db.Prelude.Parse.{i64_max}
use audite_db.Auth.{ct_eq}
use audite_db.Timeline.{Crypto, body_sha256_of, body_sha256_for, timeline_seq}
use audite_db.Audit.Retention.{
  StorageError, corrupt_error, WorldDb, CasRetentionState, i64_of_len, read_first_retained_seq,
  is_body_row, is_none,
}
use audite_db.Audit.Events.{AuditEventKind, class, EventRow, VerifyBreak, from_storage}

-- The state of a walk over the chain, which the walk and its checks of the retained bodies share.
pub record CapturedStamp : Type 0 where
  pub generation : Bytes
  pub seq : ℤ
  pub hmac : Bytes

pub record VerifyAccumulator : Type 0 where
  pub prev : Bytes
  pub genesis : Bytes
  pub events : ℕ
  pub first_body_event : Option ℤ
  pub saw_retention_floor : Bool
  pub referenced_retained_bodies : List Bytes
  pub capture_stamp_at : Option ℤ
  pub captured_stamp : Option CapturedStamp

abbrev pub break_of : ℕ → Bytes → Bytes → VerifyBreak
break_of i e a = record { break_at = i; expected = e; actual = a }

-- `HashSet::insert`
unfoldable pub insert_body : Bytes → List Bytes → List Bytes
insert_body b [] = b ∷ []
insert_body b (c ∷ s) = let rest = insert_body b s in if eq_bytes b c then c ∷ s else c ∷ rest

unfoldable pub verify_completion : VerifyAccumulator → CasRetentionState → Option VerifyBreak
verify_completion st r =
    if not st.saw_retention_floor
    then (elim r.first_retained_seq [
      | none ↦ some (break_of st.events (codes "retention floor") (codes "unset-retention-floor"))
      | some seq ↦ some (
          break_of st.events (codes "body-bearing event at first_retained_seq " ++ decimal_ℤ seq)
            (codes "missing-retention-floor-event"))
    ])
    else if not (length st.referenced_retained_bodies == length r.bodies)
    then some (
        break_of st.events (codes "all CAS bodies referenced by retained events")
          (codes "unreferenced-cas-body"))
    else none

-- The first two tests of `verify_retained_body`, which note the first body event.
abbrev note_first_body :
    EventRow → Bool → ℕ → VerifyAccumulator → Result VerifyBreak VerifyAccumulator
note_first_body row is_body idx st =
    if is_body && is_none st.first_body_event
    then (do
      first ←
          map_err
            (λ e.
              break_of idx (codes "positive body-bearing event id")
                (codes "event-id-" ++ decimal_ℤ row.id))
            (timeline_seq row.id)
      ok (record {
        prev = st.prev;
        genesis = st.genesis;
        events = st.events;
        first_body_event = some first;
        saw_retention_floor = st.saw_retention_floor;
        referenced_retained_bodies = st.referenced_retained_bodies;
        capture_stamp_at = st.capture_stamp_at;
        captured_stamp = st.captured_stamp;
      }))
    else ok st

-- The end of `verify_retained_body`.
abbrev note_retained : Bool → Bytes → VerifyAccumulator → VerifyAccumulator
note_retained at_floor body_sha256 st = record {
  prev = st.prev;
  genesis = st.genesis;
  events = st.events;
  first_body_event = st.first_body_event;
  saw_retention_floor = if at_floor then true else st.saw_retention_floor;
  referenced_retained_bodies = insert_body body_sha256 st.referenced_retained_bodies;
  capture_stamp_at = st.capture_stamp_at;
  captured_stamp = st.captured_stamp;
}

-- The part of `verify_retained_body` for a body event at or above the floor.
abbrev referenced_body :
    EventRow → ℕ → ℤ → CasRetentionState → VerifyAccumulator → Result VerifyBreak VerifyAccumulator
referenced_body row idx floor r st = do
  body_sha256 ←
      map_err
        (λ e. break_of idx (codes "valid body_sha256") (codes "body-sha256-" ++ row.body_sha256))
        (body_sha256_of row.body_sha256)
  retained ←
      ok_or (lookup body_sha256 r.bodies)
        (break_of idx (codes "cas-body-" ++ row.body_sha256) (codes "missing-cas-body"))
  require (eq_ℤ retained row.size) (
      break_of idx (codes "cas-body-size-" ++ decimal_ℤ row.size)
        (codes "cas-body-size-" ++ decimal_ℤ retained))
  ok (note_retained (eq_ℤ row.id floor) body_sha256 st)

unfoldable pub verify_retained_body :
    EventRow
    → AuditEventKind
    → ℕ
    → CasRetentionState
    → VerifyAccumulator
    → Result VerifyBreak VerifyAccumulator
verify_retained_body row event_type idx r st = elim r.first_retained_seq [
  | none ↦ ok st
  | some floor ↦ do
    noted ← note_first_body row ((class event_type).body_bearing) idx st
    require (not (eq_ℤ row.id floor && not ((class event_type).body_bearing))) (
        break_of idx (codes "body-bearing event at first_retained_seq " ++ decimal_ℤ floor)
          row.event_type)
    (if ltb_ℤ row.id floor || not ((class event_type).body_bearing)
        then ok noted
        else referenced_body row idx floor r noted)
]

-- `verify_tail_body_tx`: the retained body of the last event alone, from the table
abbrev tail_body : Crypto → WorldDb → EventRow → ℕ → Result StorageError (Option VerifyBreak)
tail_body c db row idx = elim (body_sha256_of row.body_sha256) [
  | err e ↦
      ok (some (break_of idx (codes "valid body_sha256") (codes "body-sha256-" ++ row.body_sha256)))
  | ok body_sha256 ↦ elim (lookup body_sha256 db.cas_bodies) [
    | none ↦
        ok (some (break_of idx (codes "cas-body-" ++ row.body_sha256) (codes "missing-cas-body")))
    | some body ↦ do
      require (ct_eq (body_sha256_for c body) body_sha256)
          (corrupt_error (codes "cas_bodies.body does not match body_sha256"))
      len ←
          i64_of_len (length body) (corrupt_error (codes "cas_bodies.body length does not fit i64"))
      ok (
          if not (eq_ℤ len row.size)
          then some (
              break_of idx (codes "cas-body-size-" ++ decimal_ℤ row.size)
                (codes "cas-body-size-" ++ decimal_ℤ len))
          else none)
  ]
]

abbrev tail_at_floor :
    Crypto → WorldDb → EventRow → ℕ → Bool → Option ℤ → Result StorageError (Option VerifyBreak)
tail_at_floor c db row idx is_body none = ok (
    if is_body
    then some (break_of idx (codes "retention floor") (codes "unset-retention-floor"))
    else none)
tail_at_floor c db row idx is_body (some floor) =
    if eq_ℤ row.id floor && not is_body
    then ok (
        some (
          break_of idx (codes "body-bearing event at first_retained_seq " ++ decimal_ℤ floor)
            row.event_type))
    else if ltb_ℤ row.id floor || not is_body
    then ok none
    else tail_body c db row idx

unfoldable pub verify_tail_body :
    Crypto → WorldDb → EventRow → ℕ → Result StorageError (Option VerifyBreak)
verify_tail_body c db row idx = elim (from_storage row.event_type) [
  | none ↦ ok none
  | some event_type ↦ do
    floor ← read_first_retained_seq db
    tail_at_floor c db row idx ((class event_type).body_bearing) floor
]

-- `latest_body_event_tx`: the last row, in the order of the ids, of a body event
unfoldable pub latest_body_event : List EventRow → Option EventRow
latest_body_event [] = none
latest_body_event (row ∷ rows) =
    let later = latest_body_event rows in
    elim later [ some r ↦ some r | none ↦ if is_body_row row then some row else none ]

-- `i64::try_from(len).unwrap_or(i64::MAX)`
abbrev saturating_i64 : ℕ → ℤ
saturating_i64 n = pos (if leb n i64_max then n else i64_max)

unfoldable pub live_body_head_break : Crypto → Bytes → Option EventRow → ℕ → Option VerifyBreak
live_body_head_break c live_body none event_count =
    if length live_body == 0
    then none
    else some (
        break_of (event_count - 1) (codes "latest body-bearing event")
          (codes "live-body-sha256-" ++ body_sha256_for c live_body))
live_body_head_break c live_body (some row) event_count =
    if not (ct_eq (body_sha256_for c live_body) row.body_sha256)
    then some (
        break_of (event_count - 1) (codes "live-body-sha256-" ++ row.body_sha256)
          (codes "live-body-sha256-" ++ body_sha256_for c live_body))
    else if not (eq_ℤ row.size (saturating_i64 (length live_body)))
    then some (
        break_of (event_count - 1) (codes "live-body-size-" ++ decimal_ℤ row.size)
          (codes "live-body-size-" ++ decimal_ℤ (saturating_i64 (length live_body))))
    else none

-- `live_body::verify_tx`; the delete ledger has no table for a live body.
unfoldable pub verify_live_body : Crypto → WorldDb → Option VerifyBreak
verify_live_body c db = elim db.stage_body [
  | none ↦ none
  | some body ↦ live_body_head_break c body (latest_body_event db.events) (length db.events)
]
