-- ===== src/Cas/Outcomes.antt =====
-- What the transaction steps of core/src/world/cas.rs give when they succeed.
use audite_db.Prelude.{
  none-ne-some, some-injective, ℕ, ◌+◌, ◌-◌, ◌≡◌, refl, sym, ◌∙◌, subst, ◌≤◌, ◌<◌, Bool, true,
  false, not, Option, none, some, List, ok, require, >>=-eq-ok, ◌⊎◌, inl, inr, filter, head,
  Option-cases, Bool-cases, last_n, length, leb, arith, if◌then◌else◌,
}
use audite_db.Prelude.Assoc.{lookup}
use audite_db.Prelude.Text.{Bytes}
use audite_db.Prelude.Int.{ℤ, pos, leb_ℤ, eq_ℤ_iff}
use audite_db.Prelude.Parse.{i64_max}
use audite_db.Timeline.{Crypto, body_sha256_for, timeline_seq}
use audite_db.Audit.Events.{EventRow}
use audite_db.Audit.Retention.{WorldDb}
use audite_db.Audit.Append.{RetainedCasBody}
use audite_db.Cas.{
  set_cas, insert_missing, has_len, retain_body, body_rows, current_floor, body_event_exists,
  first_body_event_seq, mark_retention_started, retained_floor_for_count, is_candidate, total_len,
  is_above, prune_below, prune_to_count,
}
use audite_db.Cas.Estimates.{
  next_event_id, retained_floor_after_next_body, estimated_current_floor, is_prunable,
  prunable_body_len_after_next_body,
}

pub record RetainedOutcome (c : Crypto) (target body : Bytes) (db db' : WorldDb)
    (r : RetainedCasBody) (inserted : Bool) : Type 0 where
  pub proof :
      r ≡ record { target = target; body_sha256 = body_sha256_for c body; size = pos (length body) }
  pub inserts : inserted ≡ (insert_missing (body_sha256_for c body) body db.cas_bodies).0
  pub tables :
      db'
      ≡ set_cas db.first_retained (insert_missing (body_sha256_for c body) body db.cas_bodies).1 db
  pub stored :
      (b : Bytes) × (lookup
          (body_sha256_for c body)
          (insert_missing (body_sha256_for c body) body db.cas_bodies).1
        ≡ some b)
      × (length b ≡ length body)

has_len-stored :
    (stored : Option Bytes) (n : ℕ)
    → has_len stored n ≡ true
    → (b : Bytes) × (stored ≡ some b) × (length b ≡ n)
has_len-stored none n h = absurd (cc)
has_len-stored (some b) n h = (b, refl, ground arith)

pub retain_body-Outcome :
    (c : Crypto) (target body : Bytes) (db db' : WorldDb) (r : RetainedCasBody) (inserted : Bool)
    → retain_body c target body db ≡ ok (r, inserted, db')
    → RetainedOutcome c target body db db' r inserted
unfolding retain_body
retain_body-Outcome c target body db db' r inserted h =
    let key = body_sha256_for c body in
    let bodies = (insert_missing key body db.cas_bodies).1 in
    let (u, h1, h2) = >>=-eq-ok (require (leb (length body) i64_max) _) _ h in
    let (v, h3, h4) = >>=-eq-ok (require (has_len (lookup key bodies) (length body)) _) _ h2 in
    record {
      proof = cc;
      inserts = cc;
      tables = cc;
      stored = has_len-stored (lookup key bodies) (length body) (ground arith);
    }

-- The floor after a start: it is that of before, a body event not above the new one, or it is the
-- new event, the first of all body events.
pub record Marked (id : ℤ) (db db' : WorldDb) : Type 0 where
  pub floor : ℤ
  pub tables : db' ≡ set_cas (some floor) db.cas_bodies db
  pub before :
      ((db.first_retained ≡ some floor)
        × (body_event_exists db.events floor ≡ true)
        × (leb_ℤ floor id ≡ true))
      ⊎ ((db.first_retained ≡ none)
          × (floor ≡ id)
          × ((row : EventRow) × (head (body_rows db.events) ≡ some row) × (row.id ≡ id)))

pub mark_retention_started-Marked :
    (id : ℤ) (db db' : WorldDb) → mark_retention_started id db ≡ ok db' → Marked id db db'
unfolding mark_retention_started first_body_event_seq timeline_seq
mark_retention_started-Marked id db db' h = elim (Option-cases db.first_retained) [
  | inl e ↦ elim (Option-cases (head (body_rows db.events))) [
    | inl e2 ↦ absurd (ground arith)
    | inr (row, e2) ↦ record {
      floor = id;
      tables = ground arith;
      before = inr (e, refl, (row, e2, ground (arith, eq_ℤ_iff row.id id)));
    }
  ]
  | inr (raw, e) ↦ record {
    floor = raw;
    tables = ground arith;
    before = inl (e, ground arith, ground arith);
  }
]

pub prune_to_count-bytes :
    (n : ℕ) (db db' : WorldDb) (f : ℤ) (bytes : ℕ) (row : EventRow)
    → db.first_retained ≡ some f
    → head (last_n n (body_rows db.events)) ≡ some row
    → prune_to_count n db ≡ ok (bytes, db')
    → bytes ≡ (
        if is_above row.id (some f)
        then total_len (filter (is_candidate db.events row.id) db.cas_bodies)
        else 0)
unfolding prune_to_count retained_floor_for_count current_floor prune_below timeline_seq
prune_to_count-bytes n db db' f bytes row hf hr h = ground arith

pub prune_to_count-fits :
    (n : ℕ) (db db' : WorldDb) (bytes : ℕ)
    → prune_to_count n db ≡ ok (bytes, db')
    → leb n i64_max ≡ true
unfolding prune_to_count retained_floor_for_count
prune_to_count-fits n db db' bytes h = ground arith

module _ (c : Crypto) (db : WorldDb) (body : Bytes) (n bytes : ℕ) where
  -- With fewer body events than are retained, nothing is to be pruned.
  pub estimate-few :
      length (body_rows db.events) + 1 < n
      → leb n i64_max ≡ true
      → prunable_body_len_after_next_body c db body n ≡ ok bytes
      → bytes ≡ 0
  unfolding prunable_body_len_after_next_body retained_floor_after_next_body
  estimate-few few fits h = ground arith

  pub estimate-floor :
      (floor : ℤ)
      → retained_floor_after_next_body db.events n ≡ ok (some floor)
      → prunable_body_len_after_next_body c db body n ≡ ok bytes
      → bytes ≡ (
          if is_above floor db.first_retained
          then total_len
              (filter (is_prunable db.events floor (body_sha256_for c body)) db.cas_bodies)
          else 0)
  unfolding prunable_body_len_after_next_body estimated_current_floor timeline_seq
  estimate-floor floor e h = ground arith

  pub estimate-ok :
      prunable_body_len_after_next_body c db body n ≡ ok bytes
      → (r : Option ℤ) × (retained_floor_after_next_body db.events n ≡ ok r)
  unfolding prunable_body_len_after_next_body
  estimate-ok h =
      let (r, h1, h2) = >>=-eq-ok (retained_floor_after_next_body db.events n) _ h in (r, h1)

pub floor-one :
    (events : List EventRow) (r : Option ℤ)
    → retained_floor_after_next_body events 1 ≡ ok r
    → r ≡ some (next_event_id events)
unfolding retained_floor_after_next_body timeline_seq
floor-one events r h = ground arith

pub floor-more :
    (events : List EventRow) (n : ℕ) (row : EventRow) (r : Option ℤ)
    → leb n i64_max ≡ true
    → 2 ≤ n
    → n ≤ length (body_rows events) + 1
    → head (last_n (n - 1) (body_rows events)) ≡ some row
    → retained_floor_after_next_body events n ≡ ok r
    → r ≡ some row.id
unfolding retained_floor_after_next_body timeline_seq
floor-more events n row r fits low high e h = ground arith

-- What a prune has done.
pub data PruneOutcome (n : ℕ) (db db' : WorldDb) (bytes : ℕ) : Type 0 where
  nothing_pruned :
      bytes ≡ 0
      → db' ≡ db
      → ((row : EventRow)
          → head (last_n n (body_rows db.events)) ≡ some row
          → is_above row.id db.first_retained ≡ false)
      → PruneOutcome n db db' bytes
  raised :
      (row : EventRow)
      → head (last_n n (body_rows db.events)) ≡ some row
      → is_above row.id db.first_retained ≡ true
      → bytes ≡ total_len (filter (is_candidate db.events row.id) db.cas_bodies)
      → db'
        ≡ set_cas
            (some row.id)
            (filter (λ e. not (is_candidate db.events row.id e)) db.cas_bodies)
            db
      → PruneOutcome n db db' bytes

pub prune_to_count-Outcome :
    (n : ℕ) (db db' : WorldDb) (bytes : ℕ)
    → prune_to_count n db ≡ ok (bytes, db')
    → PruneOutcome n db db' bytes
unfolding prune_to_count retained_floor_for_count current_floor prune_below timeline_seq
prune_to_count-Outcome n db db' bytes h =
    elim (Option-cases (head (last_n n (body_rows db.events)))) [
      | inl e ↦
          nothing_pruned (ground arith) (ground arith) (λ row k. absurd (none-ne-some (sym e ∙ k)))
      | inr (row, e) ↦ elim (Bool-cases (is_above row.id db.first_retained)) [
        | inl above ↦ raised row e above (ground arith) (ground arith)
        | inr low ↦ nothing_pruned (ground arith) (ground arith) (λ row' k.
            subst (λ x. is_above x.id db.first_retained ≡ false) (some-injective (sym e ∙ k)) low)
      ]
    ]
