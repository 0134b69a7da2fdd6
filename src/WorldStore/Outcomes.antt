-- ===== src/WorldStore/Outcomes.antt =====
-- What a transaction of core/src/world.rs that commits has done to the tables.
use audite_db.Prelude.{
  ℕ, ◌+◌, ◌≡◌, refl, sym, ap, ◌∙◌, subst, ◌≤◌, Bool, true, ◌||◌, some, List, [], ◌∷◌, ◌++◌, ok,
  require, >>=-eq-ok, All, length, arith,
}
use audite_db.Prelude.Assoc.{lookup}
use audite_db.Prelude.Text.{Bytes, eq_bytes}
use audite_db.Prelude.Int.{ℤ, pos, ltb_ℤ, leb_ℤ}
use audite_db.Timeline.{Crypto, body_sha256_for}
use audite_db.Audit.Events.{AuditEventKind, put, append, as_str, EventRow, Header}
use audite_db.Audit.Retention.{StorageError, WorldDb, is_body_row}
use audite_db.Audit.Verify.{Chain}
use audite_db.Audit.Append.{
  NewEvent, AppendedAuditRow, RetainedCasBody, signed_row, insert_event, append_tx,
  append_retained_body,
}
use audite_db.Audit.Append.Entries.{WellFormed}
use audite_db.Audit.Append.RoundTrip.{append_tx-Appended, append_tx-WellFormed}
use audite_db.Cas.{
  sqlite, in_sqlite, insert_missing, retain_body, mark_retention_started, prune_to_count,
}
use audite_db.Cas.Order.{Ascending-Rising}
use audite_db.Cas.Outcomes.{mark_retention_started-Marked, retain_body-Outcome}
use audite_db.Cas.Exact.{grown}
use audite_db.Cas.Pruned.{Write}
use audite_db.WorldStore.{set_body, finish_body}
use audite_db.WorldStore.Openings.{
  map_err-eq-ok, append_tx-id, Opened, set_cas-WellFormed, prune_to_count-WellFormed,
}

under_next :
    (n m : ℕ) (rows : List EventRow)
    → n ≤ m
    → All (λ row. leb_ℤ row.id (pos n) ≡ true) rows
    → All (λ row. ltb_ℤ row.id (pos (1 + m)) ≡ true) rows
under_next n m [] h a = tt
under_next n m (row ∷ rows) h a = (above row.id a.0, under_next n m rows h a.1)
  where
    above : (a : ℤ) → leb_ℤ a (pos n) ≡ true → ltb_ℤ a (pos (1 + m)) ≡ true
    above a k = ground arith

abbrev pub is_body_kind : AuditEventKind → Bool
is_body_kind kind = eq_bytes (as_str kind) (as_str put) || eq_bytes (as_str kind) (as_str append)

pub put-is_body : is_body_kind put ≡ true
unfolding eq_bytes
put-is_body = refl

pub append-is_body : is_body_kind append ≡ true
unfolding eq_bytes
append-is_body = refl

-- A transaction from the tables that it opens with to its commit.
pub record Finished (c : Crypto) (n : ℕ) (body : Bytes) (db d1 db6 : WorldDb) (inserted : Bool)
    (bytes : ℕ) : Type 0 where
  pub appended : WorldDb
  pub marked : WorldDb
  pub write : Write c db appended marked body
  pub prunes : prune_to_count n marked ≡ ok (bytes, db6)
  pub inserts : inserted ≡ (insert_missing (body_sha256_for c body) body db.cas_bodies).0
  pub body_set : appended.stage_body ≡ some body
  pub well : WellFormed db6
  pub from_opened : d1.events ≡ db.events ++ write.extra
  pub counted : db6.events ≡ grown db.events write.extra write.row
  pub sized : write.row.size ≡ pos (length body)
  pub stored :
      (b : Bytes) × (lookup
          (body_sha256_for c body)
          (insert_missing (body_sha256_for c body) body db.cas_bodies).1
        ≡ some b)
      × (length b ≡ length body)

module _ (c : Crypto) (chain : Chain) (n : ℕ) (kind : AuditEventKind) (at world body ct : Bytes)
    (headers : List Header) (db d1 d2 d6 : WorldDb) (kept : RetainedCasBody) (inserted : Bool)
    (bytes : ℕ) (a : AppendedAuditRow) where
  pub finish_body-Finished :
      is_body_kind kind ≡ true
      → WellFormed db
      → Opened db d1
      → retain_body c world body d1 ≡ ok (kept, inserted, d2)
      → finish_body c chain n kind at kept ct headers (set_body body d2) ≡ ok (bytes, a, d6)
      → Finished c n body db d1 d6 inserted bytes
  unfolding finish_body append_retained_body signed_row insert_event
  finish_body-Finished is_body w o retains finishes =
      let r = retain_body-Outcome c world body d1 d2 kept inserted retains in
      let (row, h1, h2) =
        >>=-eq-ok
          (in_sqlite (append_retained_body c chain at kind kept ct headers (set_body body d2))) _
          finishes in
      let (marked, h3, h4) = >>=-eq-ok (mark_retention_started row.0.id row.1) _ h2 in
      let (pruned, h5, h6) = >>=-eq-ok (prune_to_count n marked) _ h4 in
      let e : NewEvent = record {
        kind = kind;
        target = kept.target;
        body_sha256 = kept.body_sha256;
        size = kept.size;
        content_type = ct;
        headers = headers;
      } in
      let (u, h7, h8) =
        >>=-eq-ok
          (require (eq_bytes kept.target chain.world) audite_db.Audit.Retention.invalid_query)
          (λ u. append_tx c chain at e (set_body body d2)) (map_err-eq-ok sqlite _ row h1) in
      let d = append_tx-Appended c chain at e (set_body body d2) row.0 row.1 h8 in
      let o_well = subst WellFormed (sym r.tables) (
        set_cas-WellFormed d1.first_retained
          (insert_missing (body_sha256_for c body) body d1.cas_bodies).1 d1 o.well) in
      let next : d.row.id ≡ pos (1 + d1.last_rowid) =
        ap (λ x. x.id) d.signed ∙ ap (λ x. pos (1 + x.last_rowid)) r.tables in
      let id : row.0.id ≡ d.row.id =
        append_tx-id c chain at e (set_body body d2) row.1 row.0 h8
        ∙ sym (ap (λ x. x.id) d.signed) in
      let prunes : prune_to_count n marked ≡ ok (bytes, d6) = cc in
      let mark =
        mark_retention_started-Marked d.row.id row.1 marked
          (ap (λ i. mark_retention_started i row.1) (sym id) ∙ h3) in
      let well =
        (append_tx-WellFormed c chain at e (set_body body d2) row.1 row.0
          (record {
            ascending = o_well.ascending;
            numbered = o_well.numbered;
            owned = o_well.owned;
          })
          h8).0 in
      let after = prune_to_count-WellFormed n marked d6 bytes prunes (
        subst WellFormed (sym mark.tables)
          (set_cas-WellFormed (some mark.floor) row.1.cas_bodies row.1 well)) in
      let events : row.1.events ≡ grown db.events o.extra d.row =
        ap (λ x. x.events) d.result
        ∙ ap (λ x. x.events ++ d.row ∷ []) r.tables
        ∙ ap (λ x. x ++ d.row ∷ []) o.events in
      record {
        appended = row.1;
        marked = marked;
        write = record {
          extra = o.extra;
          row = d.row;
          rows = record {
            rising = Ascending-Rising db.events w.ascending;
            plain = o.plain;
            bodied = ap is_body_row d.signed ∙ is_body;
            under =
                subst (λ i. All (λ x. ltb_ℤ x.id i ≡ true) db.events) (sym next)
                  (under_next db.last_rowid d1.last_rowid db.events o.higher w.numbered);
            positive = rw next (ground arith);
          };
          named = ap (λ x. x.body_sha256) d.signed ∙ ap (λ x. x.body_sha256) r.proof;
          events = events;
          floor =
              ap (λ x. x.first_retained) d.result ∙ ap (λ x. x.first_retained) r.tables ∙ o.floor;
          bodies =
              ap (λ x. x.cas_bodies) d.result
              ∙ ap (λ x. x.cas_bodies) r.tables
              ∙ ap (λ m. (insert_missing (body_sha256_for c body) body m).1) o.bodies;
          marked = mark;
        };
        prunes = prunes;
        inserts = r.inserts ∙ ap (λ m. (insert_missing (body_sha256_for c body) body m).0) o.bodies;
        body_set = ap (λ x. x.stage_body) d.result;
        well = after.0;
        from_opened = o.events;
        counted = after.1 ∙ ap (λ x. x.events) mark.tables ∙ events;
        sized = ap (λ x. x.size) d.signed ∙ ap (λ x. x.size) r.proof;
        stored = (
          r.stored.0,
          ap
                (λ m.
                  lookup (body_sha256_for c body)
                    (insert_missing (body_sha256_for c body) body m).1)
                (sym o.bodies)
              ∙ r.stored.1,
          r.stored.2,
        );
      }
