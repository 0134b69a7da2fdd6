-- ===== src/Ledger/Rows.antt =====
-- The rows that an append adds to the delete ledger.
use audite_db.Prelude.{
  ◌≡◌, refl, sym, ap, ◌∙◌, subst, inl, inr, Bool, true, false, ◌&&◌, ◌||◌, none, some, List, [],
  ◌∷◌, ◌++◌, append_assoc, append-nil, Result, ok, err, >>=-eq-ok, Bool-cases, Result-cases, any,
  length, arith, ◌==◌,
}
use audite_db.Prelude.Text.{Bytes, eq_bytes, eq_bytes_refl}
use audite_db.Timeline.{Crypto}
use audite_db.Audit.Events.{AuditEventKind, as_str, EventRow}
use audite_db.Audit.Headers.{AuditHeaders}
use audite_db.Audit.Retention.{StorageError, WorldDb}
use audite_db.Audit.Verify.{Chain}
use audite_db.Audit.Access.{Place, stored, verify_appendable}
use audite_db.Audit.Append.{
  NewEvent, AppendedAuditRow, append_tx, append_format_tx, append_existing, append_genesis,
  with_headers, insert_event, signed_row,
}
use audite_db.Audit.Append.RoundTrip.{append_tx-Appended}
use audite_db.Ledger.{
  AuditAppendJob, AppendedLedgerEvent, Attempt, append_rows, ledger_place, ledger_event,
}

-- The ledger has an event of a kind about a world.
unfoldable pub has_event : AuditEventKind → Bytes → WorldDb → Bool
has_event kind world db =
    any (λ row. eq_bytes row.event_type (as_str kind) && eq_bytes row.target world) db.events

-- The ledger grew at its end.
pub record Extends (db db' : WorldDb) : Type 0 where
  pub suffix : List EventRow
  pub grown : db'.events ≡ db.events ++ suffix

pub Extends-refl : (db : WorldDb) → Extends db db
Extends-refl db = record { suffix = []; grown = sym (append-nil db.events) }

pub Extends-trans : (a b c : WorldDb) → Extends a b → Extends b c → Extends a c
Extends-trans a b c x y = record {
  suffix = x.suffix ++ y.suffix;
  grown = y.grown ∙ ap (λ l. l ++ y.suffix) x.grown ∙ append_assoc a.events x.suffix y.suffix;
}

any-append {ℓ} :
    {A : Type ℓ} (p : A → Bool) (xs ys : List A) → any p (xs ++ ys) ≡ (any p xs || any p ys)
any-append p [] ys = refl
any-append p (x ∷ xs) ys = ground (arith, any-append p xs ys)

-- An event of the ledger stays.
pub has_event-Extends :
    (kind : AuditEventKind) (world : Bytes) (db db' : WorldDb)
    → Extends db db'
    → has_event kind world db ≡ true
    → has_event kind world db' ≡ true
unfolding has_event
has_event-Extends kind world db db' x h =
    ap (any (λ row. eq_bytes row.event_type (as_str kind) && eq_bytes row.target world)) x.grown
    ∙ any-append _ db.events x.suffix
    ∙ ap
        (λ b.
          b
          || any (λ row. eq_bytes row.event_type (as_str kind) && eq_bytes row.target world)
              x.suffix)
        h

-- What an append of an event leaves.
pub record Wrote (kind : AuditEventKind) (world : Bytes) (db db' : WorldDb) : Type 0 where
  pub extends : Extends db db'
  pub written : has_event kind world db' ≡ true

append_tx-Wrote :
    (c : Crypto) (chain : Chain) (now : Bytes) (e : NewEvent) (db : WorldDb) (a : AppendedAuditRow)
    (db' : WorldDb)
    → append_tx c chain now e db ≡ ok (a, db')
    → Wrote e.kind e.target db db'
unfolding insert_event signed_row has_event
append_tx-Wrote c chain now e db a db' h =
    let d = append_tx-Appended c chain now e db a db' h in
    let grown : db'.events ≡ db.events ++ d.row ∷ [] = ap (λ x. x.events) d.result in
    record {
      extends = record { suffix = d.row ∷ []; grown = grown };
      written =
          ap (any (λ row. eq_bytes row.event_type (as_str e.kind) && eq_bytes row.target e.target))
            grown
          ∙ any-append _ db.events (d.row ∷ [])
          ∙ last_event d.row (ap (λ x. x.event_type) d.signed) (ap (λ x. x.target) d.signed) (
              any (λ row. eq_bytes row.event_type (as_str e.kind) && eq_bytes row.target e.target)
                db.events);
    }
  where
    last_event :
        (row : EventRow)
        → row.event_type ≡ as_str e.kind
        → row.target ≡ e.target
        → (b : Bool)
        → (b
            || ((eq_bytes row.event_type (as_str e.kind) && eq_bytes row.target e.target) || false))
          ≡ true
    last_event row k t b =
        rw (k, t) (ground (arith, eq_bytes_refl (as_str e.kind), eq_bytes_refl e.target))

append_tx-event :
    (c : Crypto) (chain : Chain) (now : Bytes) (e : NewEvent) (db : WorldDb) (a : AppendedAuditRow)
    (db' : WorldDb)
    → append_tx c chain now e db ≡ ok (a, db')
    → a.event ≡ e
unfolding append_tx
append_tx-event c chain now e db a db' h = ground arith

stored-inv {ℓ} : {A : Type ℓ} (m : Result StorageError A) (a : A) → stored m ≡ ok a → m ≡ ok a
stored-inv (ok b) a h = cc
stored-inv (err e) a h = cc

existing-Wrote :
    (c : Crypto) (p : Place) (now : Bytes) (e : NewEvent) (hs : AuditHeaders) (db : WorldDb)
    (a : AppendedAuditRow) (db' : WorldDb)
    → append_existing c p now e hs db ≡ ok (a, db')
    → Wrote e.kind e.target db db' × (a.event.kind ≡ e.kind)
unfolding append_existing
existing-Wrote c p now e hs db a db' h =
    let (chain, h1, h2) = >>=-eq-ok (verify_appendable c p db false) _ h in
    let done = stored-inv _ (a, db') h2 in
    (
      append_tx-Wrote c chain now (with_headers e hs) db a db' done,
      ap (λ x. x.kind) (append_tx-event c chain now (with_headers e hs) db a db' done),
    )

genesis-Wrote :
    (c : Crypto) (p : Place) (started_at now : Bytes) (e : NewEvent) (hs : AuditHeaders)
    (db : WorldDb) (f a : AppendedAuditRow) (db' : WorldDb)
    → append_genesis c p started_at now e hs db ≡ ok (f, a, db')
    → Wrote e.kind e.target db db' × (a.event.kind ≡ e.kind)
unfolding append_genesis append_format_tx
genesis-Wrote c p started_at now e hs db f a db' h =
    let (chain, h1, h2) = >>=-eq-ok (verify_appendable c p db true) _ h in
    let (started, h3, h4) = >>=-eq-ok (stored (append_format_tx c chain started_at db)) _ h2 in
    let (appended, h5, h6) =
      >>=-eq-ok (stored (append_tx c chain now (with_headers e hs) started.1)) _ h4 in
    let first =
      append_tx-Wrote c chain started_at _ db started.0 started.1 (stored-inv _ started h3) in
    let second =
      append_tx-Wrote c chain now (with_headers e hs) started.1 appended.0 appended.1
        (stored-inv _ appended h5) in
    let same : appended.1 ≡ db' = cc in
    let row : appended.0 ≡ a = cc in
    (
      record {
        extends =
            subst (Extends db) same
              (Extends-trans db started.1 appended.1 first.extends second.extends);
        written = subst (λ d. has_event e.kind e.target d ≡ true) same second.written;
      },
      ap (λ x. x.event.kind) (sym row)
          ∙ ap (λ x. x.kind)
              (append_tx-event c chain now (with_headers e hs) started.1 appended.0 appended.1
                (stored-inv _ appended h5)),
    )

pub append_rows-Wrote :
    (c : Crypto) (key : Bytes) (t : Attempt) (job : AuditAppendJob) (db : WorldDb)
    (event : AppendedLedgerEvent) (db' : WorldDb)
    → append_rows c key t job db ≡ ok (event, db')
    → Wrote job.event.kind job.event.target db db' × (event.event_type ≡ job.event.kind)
unfolding append_rows
append_rows-Wrote c key t job db event db' h = elim (Bool-cases (length db.events == 0)) [
  | inl empty ↦
      elim (Result-cases
        (append_genesis c (ledger_place key) t.started_at t.now job.event job.headers db)) [
          | inl ((f, row, after), e) ↦
              let facts : (after ≡ db') × (event ≡ ledger_event job row (some f)) = ground arith in
              let (w, k) =
                genesis-Wrote c (ledger_place key) t.started_at t.now job.event job.headers db f row
                  after e in
              (
                subst (Wrote job.event.kind job.event.target db) facts.0 w,
                ap (λ x. x.event_type) facts.1 ∙ k,
              )
          | inr (x, e) ↦ absurd (ground arith)
        ]
  | inr some_rows ↦
      elim (Result-cases (append_existing c (ledger_place key) t.now job.event job.headers db)) [
        | inl ((row, after), e) ↦
            let facts : (after ≡ db') × (event ≡ ledger_event job row none) = ground arith in
            let (w, k) =
              existing-Wrote c (ledger_place key) t.now job.event job.headers db row after e in
            (
              subst (Wrote job.event.kind job.event.target db) facts.0 w,
              ap (λ x. x.event_type) facts.1 ∙ k,
            )
        | inr (x, e) ↦ absurd (ground arith)
      ]
]
