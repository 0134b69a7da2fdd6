-- ===== src/WorldStore/Openings.antt =====
-- The opening of a transaction of core/src/world.rs, and what the steps after it leave.
use audite_db.Prelude.{
  ℕ, ◌+◌, ◌≡◌, refl, sym, ap, subst, ◌≤◌, Bool, true, false, Option, none, some, List, [], ◌∷◌,
  ◌++◌, append-nil, Result, ok, err, map_err, >>=-eq-ok, ok-injective, length, is_some, not, filter,
  length-append, arith, if◌then◌else◌,
}
use audite_db.Prelude.Text.{Bytes, eq_bytes}
use audite_db.Prelude.Int.{ℤ, pos}
use audite_db.Timeline.{Crypto, timeline_seq}
use audite_db.Audit.Events.{EventRow}
use audite_db.Audit.Retention.{WorldDb}
use audite_db.Audit.Verify.{Chain}
use audite_db.Audit.Append.{
  NewEvent, AppendedAuditRow, signed_row, insert_event, append_tx, append_format_tx, format_event,
}
use audite_db.Audit.Append.Entries.{WellFormed}
use audite_db.Audit.Append.RoundTrip.{append_tx-Appended, append_tx-WellFormed}
use audite_db.Cas.{sqlite, in_sqlite, body_rows, set_cas, prune_to_count, is_candidate}
use audite_db.Cas.Outcomes.{nothing_pruned, raised, prune_to_count-Outcome}
use audite_db.WorldStore.{Opening, open_format}

pub map_err-eq-ok {ℓ κ μ} :
    {E : Type ℓ} {F : Type κ} {A : Type μ} (f : E → F) (m : Result E A) (a : A)
    → map_err f m ≡ ok a
    → m ≡ ok a
map_err-eq-ok f (ok b) a h = cc
map_err-eq-ok f (err e) a h = absurd (cc)

pub append_tx-id :
    (c : Crypto) (chain : Chain) (now : Bytes) (e : NewEvent) (db db' : WorldDb)
    (a : AppendedAuditRow)
    → append_tx c chain now e db ≡ ok (a, db')
    → a.id ≡ pos (1 + db.last_rowid)
unfolding append_tx timeline_seq signed_row
append_tx-id c chain now e db db' a h = ground arith

-- The opening of a write: nothing, or the format event of a genesis.
pub record Opened (db db' : WorldDb) : Type 0 where
  pub extra : List EventRow
  pub plain : body_rows extra ≡ []
  pub events : db'.events ≡ db.events ++ extra
  pub floor : db'.first_retained ≡ db.first_retained
  pub bodies : db'.cas_bodies ≡ db.cas_bodies
  pub body : db'.stage_body ≡ db.stage_body
  pub higher : db.last_rowid ≤ db'.last_rowid
  pub well : WellFormed db'

pub open_format-events :
    (c : Crypto) (o : Opening) (at : Bytes) (db db' : WorldDb) (a : Option AppendedAuditRow)
    → open_format c o at db ≡ ok (a, db')
    → length db'.events ≡ length db.events + (if is_some a then 1 else 0)
unfolding append_format_tx insert_event
open_format-events c o at db db' a h = go o.is_genesis h
  where
    go :
        (genesis : Bool)
        → open_format c (record { chain = o.chain; is_genesis = genesis; walked = o.walked }) at db
          ≡ ok (a, db')
        → length db'.events ≡ length db.events + (if is_some a then 1 else 0)
    go true e =
        let (made, h1, h2) = >>=-eq-ok (in_sqlite (append_format_tx c o.chain at db)) _ e in
        let is : a ≡ some made.0 = ap (λ x. x.0) (sym (ok-injective h2)) in
        let tables : db' ≡ made.1 = ap (λ x. x.1) (sym (ok-injective h2)) in
        let d =
          append_tx-Appended c o.chain at (format_event c o.chain.world) db made.0 made.1
            (map_err-eq-ok sqlite (append_format_tx c o.chain at db) made h1) in
        rw is (
          omega (
            arith,
            ap (λ x. length x.events) tables,
            ap (λ x. length x.events) d.result,
            length-append db.events (d.row ∷ []),
          ))
    go false e =
        let is : a ≡ none = ap (λ x. x.0) (sym (ok-injective e)) in
        let tables : db' ≡ db = ap (λ x. x.1) (sym (ok-injective e)) in
        rw is (omega (arith, ap (λ x. length x.events) tables))

-- The start of a retention and a prune keep the tables well formed.
pub set_cas-WellFormed :
    (floor : Option ℤ) (bodies : List (Bytes × Bytes)) (db : WorldDb)
    → WellFormed db
    → WellFormed (set_cas floor bodies db)
set_cas-WellFormed floor bodies db w = record {
  ascending = w.ascending;
  numbered = w.numbered;
  owned = w.owned;
}

pub prune_to_count-WellFormed :
    (n : ℕ) (db db' : WorldDb) (bytes : ℕ)
    → prune_to_count n db ≡ ok (bytes, db')
    → WellFormed db
    → WellFormed db' × (db'.events ≡ db.events)
prune_to_count-WellFormed n db db' bytes h w = elim (prune_to_count-Outcome n db db' bytes h) [
  | nothing_pruned zero_bytes same low ↦ (subst WellFormed (sym same) w, ap (λ x. x.events) same)
  | raised row e above sum same ↦ (
    subst WellFormed (sym same) (
        set_cas-WellFormed (some row.id)
          (filter (λ x. not (is_candidate db.events row.id x)) db.cas_bodies) db w),
    ap (λ x. x.events) same,
  )
]

pub append_format-Opened :
    (c : Crypto) (chain : Chain) (at : Bytes) (db db' : WorldDb) (a : AppendedAuditRow)
    → WellFormed db
    → append_format_tx c chain at db ≡ ok (a, db')
    → Opened db db'
unfolding append_format_tx signed_row insert_event eq_bytes
append_format-Opened c chain at db db' a w h =
    let d = append_tx-Appended c chain at (format_event c chain.world) db a db' h in
    record {
      extra = d.row ∷ [];
      plain = rw d.signed refl;
      events = ap (λ x. x.events) d.result;
      floor = ap (λ x. x.first_retained) d.result;
      bodies = ap (λ x. x.cas_bodies) d.result;
      body = ap (λ x. x.stage_body) d.result;
      higher = omega (arith, ap (λ x. x.last_rowid) d.result);
      well = (append_tx-WellFormed c chain at (format_event c chain.world) db db' a w h).0;
    }

pub open_format-Opened :
    (c : Crypto) (o : Opening) (at : Bytes) (db db' : WorldDb) (a : Option AppendedAuditRow)
    → WellFormed db
    → open_format c o at db ≡ ok (a, db')
    → Opened db db'
open_format-Opened c o at db db' a w h = go o.is_genesis h
  where
    go :
        (genesis : Bool)
        → open_format c (record { chain = o.chain; is_genesis = genesis; walked = o.walked }) at db
          ≡ ok (a, db')
        → Opened db db'
    go true e =
        let (made, h1, h2) = >>=-eq-ok (in_sqlite (append_format_tx c o.chain at db)) _ e in
        let same : made.1 ≡ db' = cc in
        subst (Opened db) same (
          append_format-Opened c o.chain at db made.1 made.0 w
            (map_err-eq-ok sqlite (append_format_tx c o.chain at db) made h1))
    go false e = subst (Opened db) (cc) (record {
      extra = [];
      plain = refl;
      events = sym (append-nil db.events);
      floor = refl;
      bodies = refl;
      body = refl;
      higher = omega arith;
      well = w;
    })
