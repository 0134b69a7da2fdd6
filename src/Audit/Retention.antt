-- ===== src/Audit/Retention.antt =====
-- core/src/audit/retention.rs: the tables of a world, and the index of the bodies that its events
-- retain.
use audite_db.Prelude.{
  ℕ, Bool, true, false, not, ◌&&◌, ◌||◌, Option, none, some, List, [], ◌∷◌, Result, ok, err,
  require, map_err, ◌>>=◌, ◌>>◌, any, length, leb, if◌then◌else◌,
}
use audite_db.Prelude.Assoc.{insert}
use audite_db.Prelude.Text.{Bytes, codes, eq_bytes}
use audite_db.Prelude.Int.{ℤ, pos}
use audite_db.Prelude.Parse.{i64_max}
use audite_db.Auth.{ct_eq}
use audite_db.Timeline.{Crypto, body_sha256_of, body_sha256_for, timeline_seq}
use audite_db.Audit.Events.{EventRow, as_str, put, append}

-- What SQLite fails with.
pub data StorageError : Type 0 where
  corrupt_error invalid_parameter_name : Bytes → StorageError
  invalid_query sqlite_full sqlite_busy integer_overflow invalid_column_type constraint_violation
        execute_returned_results :
      StorageError

-- The tables that an audit reads, with the rows of `events` in the order of their row ids.
pub record WorldDb : Type 0 where
  pub generation : Bytes
  pub events : List EventRow
  pub event_headers : List (ℤ × Bytes × Bytes)
  pub last_rowid : ℕ
  pub first_retained : Option ℤ
  pub cas_bodies : List (Bytes × Bytes)
  pub stage_body : Option Bytes

-- The hash and the length of a retained body.
abbrev pub RetainedBodies : Type 0
RetainedBodies = List (Bytes × ℤ)

pub record CasRetentionState : Type 0 where
  pub first_retained_seq : Option ℤ
  pub bodies : RetainedBodies

unfoldable pub floor_is_unset : CasRetentionState → Bool
floor_is_unset r = elim r.first_retained_seq [ none ↦ true | some s ↦ false ]

abbrev pub tail_unchecked : CasRetentionState
tail_unchecked = record { first_retained_seq = none; bodies = [] }

-- `i64::try_from(len)`
abbrev pub i64_of_len : ℕ → StorageError → Result StorageError ℤ
i64_of_len n e = if leb n i64_max then ok (pos n) else err e

-- The loop of `load_hashed_bodies`.
unfoldable pub load_hashed_bodies :
    Crypto → List (Bytes × Bytes) → RetainedBodies → Result StorageError RetainedBodies
load_hashed_bodies c [] bodies = ok bodies
load_hashed_bodies c ((body_sha256, body) ∷ rows) bodies = do
  require (ct_eq (body_sha256_for c body) body_sha256)
      (corrupt_error (codes "cas_bodies.body does not match body_sha256"))
  len ← i64_of_len (length body) (corrupt_error (codes "cas_bodies.body length does not fit i64"))
  load_hashed_bodies c rows (insert (body_sha256_for c body) len bodies)

-- The loop of `load_body_index`; `length(body)` of a blob is not negative.
unfoldable pub load_body_index :
    List (Bytes × Bytes) → RetainedBodies → Result StorageError RetainedBodies
load_body_index [] bodies = ok bodies
load_body_index ((raw, body) ∷ rows) bodies = do
  body_sha256 ←
      map_err (λ e. corrupt_error (codes "invalid cas_bodies.body_sha256")) (body_sha256_of raw)
  load_body_index rows (insert body_sha256 (pos (length body)) bodies)

-- `SELECT 1 FROM events WHERE event_type IN ('put', 'append')`
abbrev pub is_body_row : EventRow → Bool
is_body_row row = eq_bytes row.event_type (as_str put) || eq_bytes row.event_type (as_str append)

unfoldable pub has_body_bearing_events : List EventRow → Bool
has_body_bearing_events events = any is_body_row events

-- The query of `cas_state` in `load_inner` and `first_retained_seq`.
unfoldable pub read_first_retained_seq : WorldDb → Result StorageError (Option ℤ)
read_first_retained_seq db = elim db.first_retained [
  | none ↦ ok none
  | some raw ↦ do
    seq ← map_err (λ e. corrupt_error (codes "invalid first_retained_seq")) (timeline_seq raw)
    ok (some seq)
]

pub data RetainedCasLoad : Type 0 where
  hash_bodies index_shape : RetainedCasLoad

abbrev load_bodies : Crypto → WorldDb → RetainedCasLoad → Result StorageError RetainedBodies
load_bodies c db hash_bodies = load_hashed_bodies c db.cas_bodies []
load_bodies c db index_shape = load_body_index db.cas_bodies []

abbrev pub is_none {ℓ} : {A : Type ℓ} → Option A → Bool
is_none none = true
is_none (some a) = false

abbrev is_nil {ℓ} : {A : Type ℓ} → List A → Bool
is_nil [] = true
is_nil (a ∷ l) = false

unfoldable pub load_inner :
    Crypto → WorldDb → RetainedCasLoad → Result StorageError CasRetentionState
load_inner c db mode = do
  first_retained_seq ← read_first_retained_seq db
  bodies ← load_bodies c db mode
  require (not (is_none first_retained_seq && not (is_nil bodies)))
      (corrupt_error (codes "cas_bodies rows exist before first_retained_seq is set"))
  require (not (is_none first_retained_seq && has_body_bearing_events db.events))
      (corrupt_error (codes "body-bearing events exist before first_retained_seq is set"))
  ok (record { first_retained_seq = first_retained_seq; bodies = bodies })
