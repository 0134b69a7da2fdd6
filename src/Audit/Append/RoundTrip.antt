-- ===== src/Audit/Append/RoundTrip.antt =====
-- What core/src/audit/append.rs appends, core/src/audit/verifier.rs accepts.
use audite_db.Prelude.{
  ℕ, ◌+◌, ◌≡◌, refl, sym, ap, ◌∙◌, subst, true, not, ◌||◌, List, [], ◌∷◌, ◌++◌, map, Result, ok,
  map_err, ◌>>=◌, require, >>=-eq-ok, >>=-ok, >>=_assoc, >>=-eq_of_ok, arith, ltb, none, some,
}
use mathlib.Core.Path.{fun_ext}
use audite_db.Prelude.Text.{Bytes, eq_bytes, to_ascii_lowercase}
use audite_db.Prelude.Parse.{i64_max}
use audite_db.Prelude.Int.{ℤ, pos}
use audite_db.Timeline.{Crypto, timeline_seq}
use audite_db.Audit.Events.{
  AuditEventKind, AuditEventClass, class, as_str, from_storage, from_storage_iff, is_format_kind,
  EventRow, Header, Entry,
}
use audite_db.Audit.Frame.{canonical_headers, is_canonical_sqlite_utc_timestamp}
use audite_db.Audit.Frame.Sorting.{sort_headers_idem}
use audite_db.Audit.Retention.{WorldDb, CasRetentionState}
use audite_db.Audit.Bodies.{VerifyAccumulator, verify_retained_body}
use audite_db.Audit.Verify.{
  Chain, verify_event, advance, target_bound_to_world, has_version, verify_delete_subject_proof,
}
use audite_db.Audit.Verify.Sound.{Accepts, Accepts-verify_signed}
use audite_db.Audit.Walk.{sorted_headers, entries, verify_entry, verify_all}
use audite_db.Audit.Walk.Tampering.{verify_event-prev}
use audite_db.Audit.Access.{last_entry}
use audite_db.Audit.Append.{
  NewEvent, AppendedAuditRow, latest_hmac, unsigned_row, signed_row, insert_event, append_tx,
}
use audite_db.Audit.Append.Entries.{WellFormed, entries-insert_event, insert_event-WellFormed}

-- What the callers of an append see to: the target is the chain's where it has to be, a format event
-- names the version, and a delete event has its proof.
pub record Admissible (c : Crypto) (chain : Chain) (e : NewEvent) : Type 0 where
  pub bound : (not (target_bound_to_world e.kind) || eq_bytes chain.world e.target) ≡ true
  pub version : (not (is_format_kind e.kind) || has_version (canonical_headers e.headers)) ≡ true
  pub subject :
      (idx : ℕ)
      → verify_delete_subject_proof
          (unsigned_row c [] [] (pos 0) e)
          (canonical_headers e.headers)
          e.kind
          idx
        ≡ ok tt

-- What an accepted append has done.
pub record Appended (c : Crypto) (chain : Chain) (now : Bytes) (e : NewEvent) (db db' : WorldDb)
    : Type 0 where
  pub row : EventRow
  pub signed : row ≡ signed_row c chain now (latest_hmac db.events) (pos (1 + db.last_rowid)) e
  pub time : is_canonical_sqlite_utc_timestamp now ≡ true
  pub result : db' ≡ insert_event db row (canonical_headers e.headers)

pub append_tx-Appended :
    (c : Crypto) (chain : Chain) (now : Bytes) (e : NewEvent) (db : WorldDb) (a : AppendedAuditRow)
    (db' : WorldDb)
    → append_tx c chain now e db ≡ ok (a, db')
    → Appended c chain now e db db'
unfolding append_tx
append_tx-Appended c chain now e db a db' h =
    let (u, h1, h2) = >>=-eq-ok (require (is_canonical_sqlite_utc_timestamp now) _) _ h in
    let (v, h3, h4) = >>=-eq-ok (require (ltb db.last_rowid i64_max) _) _ h2 in
    let (id, h5, h6) = >>=-eq-ok (map_err _ (timeline_seq (pos (1 + db.last_rowid)))) _ h4 in
    record {
      row = signed_row c chain now (latest_hmac db.events) (pos (1 + db.last_rowid)) e;
      signed = refl;
      time = ground arith;
      result = cc;
    }

module _ (c : Crypto) (chain : Chain) (r : CasRetentionState) where
  -- A signed row passes every test but those of the retained bodies.
  signed_row-Accepts :
      (now : Bytes) (id : ℤ) (e : NewEvent) (st : VerifyAccumulator)
      → is_canonical_sqlite_utc_timestamp now ≡ true
      → Admissible c chain e
      → Accepts c chain
          (signed_row c chain now st.prev id e)
          (canonical_headers e.headers)
          st
          e.kind
  unfolding signed_row verify_delete_subject_proof
  signed_row-Accepts now id e st time ad = record {
    known = (from_storage_iff (as_str e.kind) e.kind).1 refl;
    bound = ad.bound;
    signed = record { linked = refl; digest = refl; tag = refl };
    version = ad.version;
    subject = ad.subject st.events;
    time = time;
  }

  pub verify_event-signed_row :
      (now : Bytes) (id : ℤ) (e : NewEvent) (st : VerifyAccumulator)
      → is_canonical_sqlite_utc_timestamp now ≡ true
      → Admissible c chain e
      → let row = signed_row c chain now st.prev id e in
        verify_event c chain r row (canonical_headers e.headers) st ≡ (do
          kept ← verify_retained_body row e.kind st.events r st
          ok (advance chain.generation row kept))
  unfolding verify_event
  verify_event-signed_row now id e st time ad =
      ap
        (λ m. m >>= λ kind. do
          kept ← verify_retained_body (signed_row c chain now st.prev id e) kind st.events r st
          ok (advance chain.generation (signed_row c chain now st.prev id e) kept))
        (Accepts-verify_signed c chain _ _ st e.kind (signed_row-Accepts now id e st time ad))

  pub verify_all-append :
      (xs ys : List Entry) (st : VerifyAccumulator)
      → verify_all c chain r (xs ++ ys) st
        ≡ (verify_all c chain r xs st >>= verify_all c chain r ys)
  unfolding verify_all
  verify_all-append [] ys st = refl
  verify_all-append (x ∷ xs) ys st =
      ap (λ f. verify_entry c chain r x st >>= f) (fun_ext (λ s. verify_all-append xs ys s))
      ∙ sym (>>=_assoc (verify_entry c chain r x st) _ _)

unfoldable pub last_hmac : List EventRow → Bytes → Bytes
last_hmac [] prev = prev
last_hmac (row ∷ rows) prev = last_hmac rows row.hmac

last_hmac-latest :
    (rows : List EventRow) (prev : Bytes)
    → last_hmac rows prev ≡ (elim (last_entry rows) [ none ↦ prev | some row ↦ row.hmac ])
unfolding last_hmac
last_hmac-latest [] prev = refl
last_hmac-latest (row ∷ rows) prev = ground (arith, last_hmac-latest rows row.hmac)

latest_hmac-last : (rows : List EventRow) → last_hmac rows [] ≡ latest_hmac rows
unfolding latest_hmac
latest_hmac-last rows = last_hmac-latest rows []

pub verify_all-prev :
    (c : Crypto) (chain : Chain) (r : CasRetentionState) (db : WorldDb) (rows : List EventRow)
    (st after : VerifyAccumulator)
    → verify_all c chain r (map (λ row. (row, sorted_headers db row)) rows) st ≡ ok after
    → after.prev ≡ last_hmac rows st.prev
unfolding verify_all last_hmac
verify_all-prev c chain r db [] st after h = let e : st ≡ after = cc in ap (λ s. s.prev) (sym e)
verify_all-prev c chain r db (row ∷ rows) st after h =
    let (mid, h1, h2) = >>=-eq-ok (verify_event c chain r row (sorted_headers db row) st) _ h in
    verify_all-prev c chain r db rows mid after h2
    ∙ ap (last_hmac rows) ((verify_event-prev c chain r row (sorted_headers db row) st mid h1).0)

-- The event's own tests, once the chain before it has been walked.
abbrev pub retain_and_advance :
    Chain
    → CasRetentionState
    → EventRow
    → AuditEventKind
    → VerifyAccumulator
    → Result audite_db.Audit.Events.VerifyBreak VerifyAccumulator
retain_and_advance chain r row kind st = do
  kept ← verify_retained_body row kind st.events r st
  ok (advance chain.generation row kept)

last-step :
    (c : Crypto) (chain : Chain) (r : CasRetentionState) (now : Bytes) (id : ℤ) (e : NewEvent)
    (db : WorldDb) (st0 st : VerifyAccumulator)
    → is_canonical_sqlite_utc_timestamp now ≡ true
    → Admissible c chain e
    → st0.prev ≡ []
    → verify_all c chain r (entries db) st0 ≡ ok st
    → verify_all c chain r
        ((signed_row c chain now (latest_hmac db.events) id e, canonical_headers e.headers) ∷ [])
        st
      ≡ retain_and_advance chain r (signed_row c chain now (latest_hmac db.events) id e) e.kind st
unfolding verify_all
last-step c chain r now id e db st0 st time ad start h =
    let prev : latest_hmac db.events ≡ st.prev =
      sym (latest_hmac-last db.events)
      ∙ ap (last_hmac db.events) (sym start)
      ∙ sym (verify_all-prev c chain r db db.events st0 st h) in
    >>=-ok _
    ∙ subst
        (λ p.
          verify_event c chain r (signed_row c chain now p id e) (canonical_headers e.headers) st
          ≡ retain_and_advance chain r (signed_row c chain now p id e) e.kind st)
        (sym prev) (verify_event-signed_row c chain r now id e st time ad)

-- An accepted append keeps the tables well formed, and gives a walk one entry more than there were:
-- the row that it has signed under the next id, with the headers of the event in their canonical
-- form.
pub append_tx-WellFormed :
    (c : Crypto) (chain : Chain) (now : Bytes) (e : NewEvent) (db db' : WorldDb)
    (a : AppendedAuditRow)
    → WellFormed db
    → append_tx c chain now e db ≡ ok (a, db')
    → WellFormed db'
      × (entries db'
          ≡ entries db
            ++ (
              signed_row c chain now (latest_hmac db.events) (pos (1 + db.last_rowid)) e,
              canonical_headers e.headers,
            )
              ∷ [])
unfolding canonical_headers signed_row
append_tx-WellFormed c chain now e db db' a w h =
    let d = append_tx-Appended c chain now e db a db' h in
    let row = signed_row c chain now (latest_hmac db.events) (pos (1 + db.last_rowid)) e in
    (
      subst WellFormed (sym d.result) (
          insert_event-WellFormed db d.row (canonical_headers e.headers) (ap (λ x. x.id) d.signed)
            w),
      ap entries (d.result ∙ ap (λ x. insert_event db x (canonical_headers e.headers)) d.signed)
          ∙ entries-insert_event db row (canonical_headers e.headers) w refl
              (sort_headers_idem (map (λ h. (to_ascii_lowercase h.0, h.1)) e.headers)),
    )

-- After an append, the walk over the chain is the walk before it and then the tests of the retained
-- body alone: what the append has signed is always accepted. The tables are well formed and the
-- event is admissible; nothing is asked of the chain before.
pub append_tx-verifies :
    (c : Crypto) (chain : Chain) (r : CasRetentionState) (now : Bytes) (e : NewEvent)
    (db db' : WorldDb) (a : AppendedAuditRow) (st0 : VerifyAccumulator)
    → WellFormed db
    → Admissible c chain e
    → st0.prev ≡ []
    → append_tx c chain now e db ≡ ok (a, db')
    → verify_all c chain r (entries db') st0 ≡ (
        verify_all c chain r (entries db) st0
        >>= retain_and_advance chain r
            (signed_row c chain now (latest_hmac db.events) (pos (1 + db.last_rowid)) e)
            e.kind)
unfolding canonical_headers signed_row
append_tx-verifies c chain r now e db db' a st0 w ad start h =
    let d = append_tx-Appended c chain now e db a db' h in
    let row = signed_row c chain now (latest_hmac db.events) (pos (1 + db.last_rowid)) e in
    let table = (append_tx-WellFormed c chain now e db db' a w h).1 in
    ap (λ l. verify_all c chain r l st0) table
    ∙ verify_all-append c chain r (entries db) ((row, canonical_headers e.headers) ∷ []) st0
    ∙ >>=-eq_of_ok (verify_all c chain r (entries db) st0) _ _ (λ st reached.
      last-step c chain r now (pos (1 + db.last_rowid)) e db st0 st d.time ad start reached)
