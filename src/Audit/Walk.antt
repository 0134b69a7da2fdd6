-- ===== src/Audit/Walk.antt =====
-- core/src/audit/verifier.rs, core/src/audit.rs and core/src/chain_stamp.rs: the walk over the rows
-- of a chain, and the proofs that it mints.
pub mod Grouping
pub mod Breaks
pub mod Stamps
pub mod Tampering
use audite_db.Prelude.{
  ℕ, ◌+◌, ◌-◌, ◌≡◌, refl, Bool, true, false, not, ◌&&◌, ◌||◌, Option, none, some, List, [], ◌∷◌,
  ◌++◌, map, Result, ok, err, require, map_err, ok_or, ◌>>=◌, ◌>>◌, leb, length, ◌==◌,
  if◌then◌else◌,
}
use audite_db.Prelude.Text.{Bytes, codes}
use audite_db.Prelude.Int.{ℤ, pos, eq_ℤ, ltb_ℤ}
use audite_db.Prelude.Parse.{i64_max}
use audite_db.Timeline.{Crypto}
use audite_db.Audit.Events.{EventRow, Header, Entry, VerifyBreak}
use audite_db.Audit.Frame.{hmac_label, sort_headers}
use audite_db.Audit.Retention.{
  StorageError, invalid_parameter_name, WorldDb, CasRetentionState, RetainedCasLoad, hash_bodies,
  index_shape, load_inner, floor_is_unset, tail_unchecked,
}
use audite_db.Audit.Bodies.{
  CapturedStamp, VerifyAccumulator, break_of, verify_completion, verify_tail_body, verify_live_body,
}
use audite_db.Audit.Verify.{Chain, verify_event}

-- The headers of an event, in the order of the query.
unfoldable pub headers_of : List (ℤ × Bytes × Bytes) → ℤ → List Header
headers_of [] id = []
headers_of ((event_id, name, value) ∷ rows) id =
    let rest = headers_of rows id in if eq_ℤ event_id id then (name, value) ∷ rest else rest

abbrev pub sorted_headers : WorldDb → EventRow → List Header
sorted_headers db row = sort_headers (headers_of db.event_headers row.id)

-- A row of the join: an event with one of its headers, or with none if it has none.
abbrev pub JoinedRow : Type 0
JoinedRow = EventRow × Option Header

unfoldable pub joined : Entry → List JoinedRow
joined (row, []) = (row, none) ∷ []
joined (row, h ∷ hs) = map (λ k. (row, some k)) (h ∷ hs)

unfoldable pub join_all : List Entry → List JoinedRow
unfolding joined
join_all [] = []
join_all (e ∷ es) = joined e ++ join_all es

-- The rows of `events` with their headers, as a list of entries.
abbrev pub entries : WorldDb → List Entry
entries db = map (λ row. (row, sorted_headers db row)) db.events

-- `AUDIT_SELECT`
abbrev pub audit_select : WorldDb → List JoinedRow
audit_select db = join_all (entries db)

abbrev pub push_header : List Header → Option Header → List Header
push_header headers none = headers
push_header headers (some h) = headers ++ h ∷ []

module _ (c : Crypto) (chain : Chain) (retention : CasRetentionState) where
  abbrev pub verify_entry : Entry → VerifyAccumulator → Result VerifyBreak VerifyAccumulator
  verify_entry (row, headers) st = verify_event c chain retention row headers st

  -- The loop of `verify_statement_capture` over the joined rows, with the current event and the
  -- headers collected for it.
  unfoldable pub walk :
      List JoinedRow
      → Option EventRow
      → List Header
      → VerifyAccumulator
      → Result VerifyBreak VerifyAccumulator
  walk [] none headers st = ok st
  walk [] (some event) headers st = verify_entry (event, headers) st
  walk ((row, h) ∷ rows) none headers st = walk rows (some row) (push_header headers h) st
  walk ((row, h) ∷ rows) (some event) headers st =
      let same = walk rows (some event) (push_header headers h) in
      let next = walk rows (some row) (push_header [] h) in
      if not (eq_ℤ event.id row.id) then verify_entry (event, headers) st >>= next else same st

  -- The chain event by event.
  unfoldable pub verify_all : List Entry → VerifyAccumulator → Result VerifyBreak VerifyAccumulator
  verify_all [] st = ok st
  verify_all (e ∷ es) st = verify_entry e st >>= verify_all es

-- The state that a walk starts from.
abbrev pub initial : Bytes → ℕ → CasRetentionState → Option ℤ → VerifyAccumulator
initial prev events retention capture_stamp_at = record {
  prev = prev;
  genesis = [];
  events = events;
  first_body_event = none;
  saw_retention_floor = floor_is_unset retention;
  referenced_retained_bodies = [];
  capture_stamp_at = capture_stamp_at;
  captured_stamp = none;
}

pub record VerifyOk : Type 0 where
  pub events : ℕ
  pub genesis : Bytes
  pub latest : Bytes

pub record ChainStamp : Type 0 where
  pub generation : Bytes
  pub seq : ℤ
  pub hmac : Bytes

pub record ChainStampMissing : Type 0 where
  pub generation : Bytes
  pub requested : ℤ
  pub observed : ℕ

pub data ChainStampRead : Type 0 where
  found : ChainStamp → ChainStampRead
  missing : ChainStampMissing → ChainStampRead

pub data VerifyCapturedReport : Type 0 where
  valid : VerifyOk → Option ChainStamp → Option ChainStampRead → VerifyCapturedReport
  broken : VerifyBreak → VerifyCapturedReport

unfoldable pub verified_ok : Bool → VerifyAccumulator → Result VerifyBreak VerifyOk
verified_ok allow_empty st =
    if st.events == 0
    then (if allow_empty
        then ok (record { events = 0; genesis = hmac_label []; latest = hmac_label [] })
        else err (break_of 0 (codes "at-least-one-event") (codes "no-events")))
    else ok (record {
      events = st.events;
      genesis = hmac_label st.genesis;
      latest = hmac_label st.prev;
    })

-- `ChainSeq::from_verified_count`
abbrev seq_of_count : ℕ → Option ℤ
seq_of_count n = if not (leb n i64_max) then none else if n == 0 then none else some (pos n)

-- `verified_head_from_ok`
unfoldable pub verified_head : Bytes → VerifyOk → Result StorageError (Option ChainStamp)
verified_head generation report = if report.events == 0 then ok none else do
  seq ←
      ok_or (seq_of_count report.events)
        (invalid_parameter_name (codes "verified audit chain event count exceeds supported range"))
  ok (some (record { generation = generation; seq = seq; hmac = report.latest }))

-- `verified_stamp_from_completed_walk`
unfoldable pub verified_stamp : Bytes → Option ℤ → VerifyAccumulator → Option ChainStampRead
verified_stamp generation none st = none
verified_stamp generation (some seq) st = elim st.captured_stamp [
  | some s ↦ some (found (record { generation = s.generation; seq = s.seq; hmac = s.hmac }))
  | none ↦
      some (missing (record { generation = generation; requested = seq; observed = st.events }))
]

abbrev pub no_break : Option VerifyBreak → Result VerifyBreak (Unit {0})
no_break none = ok tt
no_break (some b) = err b

-- The breaks of a walk, of its completion and of its outcome.
unfoldable pub completed :
    Crypto
    → Chain
    → CasRetentionState
    → List JoinedRow
    → Bool
    → Option ℤ
    → Result VerifyBreak (VerifyOk × VerifyAccumulator)
unfolding walk verified_ok
completed c chain retention rows allow_empty capture_stamp_at = do
  st ← walk c chain retention rows none [] (initial [] 0 retention capture_stamp_at)
  no_break (verify_completion st retention)
  report ← verified_ok allow_empty st
  ok (report, st)

-- The report of `verify_statement_capture`, once the walk is over.
unfoldable pub captured_report :
    Chain
    → Option ℤ
    → Result VerifyBreak (VerifyOk × VerifyAccumulator)
    → Result StorageError VerifyCapturedReport
unfolding verified_head verified_stamp
captured_report chain capture_stamp_at (err b) = ok (broken b)
captured_report chain capture_stamp_at (ok (report, st)) = do
  head ← verified_head chain.generation report
  ok (valid report head (verified_stamp chain.generation capture_stamp_at st))

unfoldable pub verify_statement_capture :
    Crypto
    → Chain
    → CasRetentionState
    → List JoinedRow
    → Bool
    → Option ℤ
    → Result StorageError VerifyCapturedReport
unfolding completed captured_report
verify_statement_capture c chain retention rows allow_empty capture_stamp_at =
    captured_report chain capture_stamp_at
      (completed c chain retention rows allow_empty capture_stamp_at)
