-- ===== src/Cas.antt =====
-- core/src/world/cas.rs: the bodies that a world retains, put into its tables and pruned from them in
-- the transaction of a write, and the estimates of both that a write makes before it.
pub mod Estimates
pub mod Sums
pub mod Order
pub mod Outcomes
pub mod Exact
pub mod Pruned
pub mod Predicted
pub mod Window
pub mod Bounded
use audite_db.Prelude.{
  ℕ, ◌+◌, ◌-◌, ◌≡◌, Bool, true, false, not, ◌&&◌, Option, none, some, List, [], ◌∷◌, ◌++◌, Result,
  ok, err, require, map_err, ok_or, ◌>>=◌, ◌>>◌, any, filter, head, last_n, length, leb, ltb, ◌==◌,
  if◌then◌else◌,
}
use audite_db.Prelude.Assoc.{lookup, insert}
use audite_db.Prelude.Text.{Bytes, codes, eq_bytes}
use audite_db.Prelude.Int.{ℤ, pos, ltb_ℤ, leb_ℤ, eq_ℤ}
use audite_db.Prelude.Parse.{i64_max}
use audite_db.Timeline.{Crypto, body_sha256_for, timeline_seq}
use audite_db.Audit.Events.{EventRow}
use audite_db.Audit.Retention.{
  StorageError, corrupt_error, integer_overflow, WorldDb, is_body_row, is_none,
}
use audite_db.Audit.Access.{AuditError, last_entry}
use audite_db.Audit.Append.{RetainedCasBody}

-- `WriteAuditError` of core/src/world.rs
pub data WriteAuditError : Type 0 where
  audit : AuditError → WriteAuditError
  sqlite : StorageError → WriteAuditError
  cas_body_mismatch storage_invariant : Bytes → WriteAuditError

abbrev pub in_sqlite {ℓ} : {A : Type ℓ} → Result StorageError A → Result WriteAuditError A
in_sqlite r = map_err sqlite r

abbrev pub max_retained_body_count : ℕ
max_retained_body_count = 65536

-- `RetainedBodyCount::new`
unfoldable pub retained_body_count : ℕ → Option ℕ
retained_body_count value =
    if ltb 0 value && leb value max_retained_body_count && leb value i64_max
    then some value
    else none

-- The statements that write `cas_bodies` and `cas_state`.
abbrev pub set_cas : Option ℤ → List (Bytes × Bytes) → WorldDb → WorldDb
set_cas floor bodies db = record {
  generation = db.generation;
  events = db.events;
  event_headers = db.event_headers;
  last_rowid = db.last_rowid;
  first_retained = floor;
  cas_bodies = bodies;
  stage_body = db.stage_body;
}

-- `INSERT .. ON CONFLICT DO NOTHING`: whether a row was inserted, and the table after it.
unfoldable pub insert_missing : Bytes → Bytes → List (Bytes × Bytes) → Bool × List (Bytes × Bytes)
insert_missing key body bodies = elim (lookup key bodies) [
  | none ↦ (true, insert key body bodies)
  | some stored ↦ (false, bodies)
]

-- `length(body)` of the row that then stands under the key
abbrev pub has_len : Option Bytes → ℕ → Bool
has_len none size = false
has_len (some stored) size = length stored == size

-- The proof, `inserted`, and the tables after it.
unfoldable pub retain_body :
    Crypto → Bytes → Bytes → WorldDb → Result WriteAuditError (RetainedCasBody × Bool × WorldDb)
unfolding insert_missing
retain_body c target body db = do
  require (leb (length body) i64_max) (storage_invariant (codes "body length does not fit i64"))
  let key = body_sha256_for c body
  let (inserted, bodies) = insert_missing key body db.cas_bodies
  require (has_len (lookup key bodies) (length body)) (cas_body_mismatch key)
  ok (
    (record { target = target; body_sha256 = key; size = pos (length body) }),
    inserted,
    set_cas db.first_retained bodies db,
  )

abbrev pub body_rows : List EventRow → List EventRow
body_rows events = filter is_body_row events

abbrev invalid_floor : WriteAuditError
invalid_floor = storage_invariant (codes "cas_state first_retained_seq invalid")

-- The singleton row of `cas_state`, which every world has.
unfoldable pub current_floor : WorldDb → Result WriteAuditError (Option ℤ)
current_floor db = elim db.first_retained [
  | none ↦ ok none
  | some raw ↦ do seq ← map_err (λ e. invalid_floor) (timeline_seq raw); ok (some seq)
]

abbrev pub body_event_id : EventRow → Result WriteAuditError ℤ
body_event_id row =
    map_err (λ e. storage_invariant (codes "body event id invalid")) (timeline_seq row.id)

unfoldable pub body_event_exists : List EventRow → ℤ → Bool
body_event_exists events seq = any (λ row. eq_ℤ row.id seq && is_body_row row) events

-- `query_row` fails if there is no row.
unfoldable pub first_body_event_seq : List EventRow → Result WriteAuditError ℤ
first_body_event_seq events = elim (head (body_rows events)) [
  | none ↦ err (sqlite audite_db.Audit.Retention.invalid_query)
  | some row ↦ body_event_id row
]

unfoldable pub mark_retention_started : ℤ → WorldDb → Result WriteAuditError WorldDb
unfolding body_event_exists first_body_event_seq
mark_retention_started event_id db = elim db.first_retained [
  | some raw ↦ do
    floor ← map_err (λ e. invalid_floor) (timeline_seq raw)
    require (body_event_exists db.events floor)
        (storage_invariant (codes "cas_state first_retained_seq does not point at a body event"))
    require (not (ltb_ℤ event_id floor))
        (storage_invariant (codes "cas_state first_retained_seq is ahead of event row"))
    ok db
  | none ↦ do
    first ← first_body_event_seq db.events
    require (eq_ℤ first event_id)
        (storage_invariant (codes "cas retention cannot start after existing body events"))
    ok (set_cas (some event_id) db.cas_bodies db)
]

-- `retained_floor_for_count_tx`: the oldest of the newest body events, so many as are retained
unfoldable pub retained_floor_for_count : List EventRow → ℕ → Result WriteAuditError (Option ℤ)
retained_floor_for_count events retained = do
  require (leb retained i64_max) (storage_invariant (codes "retained body count exceeds i64"))
  (elim (head (last_n retained (body_rows events))) [
    | none ↦ ok none
    | some row ↦ do seq ← body_event_id row; ok (some seq)
  ])

-- The two subqueries on the events: a body event below the floor, or not below it, with the hash.
unfoldable pub named_below : List EventRow → ℤ → Bytes → Bool
named_below events floor key =
    any (λ row. is_body_row row && ltb_ℤ row.id floor && eq_bytes key row.body_sha256) events

unfoldable pub named_from : List EventRow → ℤ → Bytes → Bool
named_from events floor key =
    any (λ row. is_body_row row && not (ltb_ℤ row.id floor) && eq_bytes key row.body_sha256) events

abbrev pub is_candidate : List EventRow → ℤ → Bytes × Bytes → Bool
is_candidate events floor entry =
    named_below events floor entry.0 && not (named_from events floor entry.0)

-- `SUM(length(body))`
unfoldable pub total_len : List (Bytes × Bytes) → ℕ
total_len [] = 0
total_len ((key, body) ∷ bodies) = length body + total_len bodies

abbrev pub is_above : ℤ → Option ℤ → Bool
is_above floor none = true
is_above floor (some current) = not (leb_ℤ floor current)

-- `prune_to_count_tx` once the floor is to rise: the bytes that it deletes, and the tables after it.
unfoldable pub prune_below : ℤ → WorldDb → Result WriteAuditError (ℕ × WorldDb)
prune_below floor db = do
  let candidate = is_candidate db.events floor
  let pruned_bytes = total_len (filter candidate db.cas_bodies)
  require (leb pruned_bytes i64_max) (sqlite integer_overflow)
  let kept = filter (λ entry. not (candidate entry)) db.cas_bodies
  require (not (any candidate kept))
      (storage_invariant (codes "old CAS bodies remain after retention prune"))
  ok (pruned_bytes, set_cas (some floor) kept db)

unfoldable pub prune_to_count : ℕ → WorldDb → Result WriteAuditError (ℕ × WorldDb)
unfolding retained_floor_for_count current_floor prune_below
prune_to_count retained db = do
  new_floor ← retained_floor_for_count db.events retained
  (elim new_floor [
    | none ↦ ok (0, db)
    | some floor ↦ do
      current ← current_floor db
      (if is_above floor current then prune_below floor db else ok (0, db))
  ])
