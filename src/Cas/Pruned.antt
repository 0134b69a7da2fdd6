-- ===== src/Cas/Pruned.antt =====
-- The floors of core/src/world/cas.rs above which no body event lies, and the tables of a write.
use audite_db.Prelude.{
  zero, suc, ◌≡◌, refl, sym, ◌∙◌, subst, true, false, ◌&&◌, some, List, [], ◌∷◌, inl, inr, any,
  filter, head, Option-cases, arith,
}
use audite_db.Prelude.Text.{Bytes, eq_bytes}
use audite_db.Prelude.Int.{ℤ, pos, negsuc, ltb_ℤ, leb_ℤ, eq_ℤ, eq_ℤ_iff}
use audite_db.Timeline.{Crypto, body_sha256_for}
use audite_db.Audit.Events.{EventRow}
use audite_db.Audit.Retention.{WorldDb}
use audite_db.Audit.Access.{last_entry}
use audite_db.Cas.{insert_missing, body_rows, body_event_exists, named_below, named_from, total_len}
use audite_db.Cas.Estimates.{next_id, next_event_id, is_prunable}
use audite_db.Cas.Order.{Rising, Under, Rising-Under}
use audite_db.Cas.Outcomes.{Marked}
use audite_db.Cas.Exact.{Grown, grown, any-rows, any-plain}

-- The floor of a started retention is a body event.
pub Marked-exists :
    (id : ℤ) (db db' : WorldDb) (m : Marked id db db')
    → any (λ row. eq_ℤ row.id m.floor) (body_rows db.events) ≡ true
unfolding body_event_exists
Marked-exists id db db' m = elim m.before [
  | inl b ↦ sym (any-rows (λ row. eq_ℤ row.id m.floor) db.events) ∙ b.1
  | inr b ↦ first_is (body_rows db.events) m.floor b.2.0 b.2.1 (b.2.2 ∙ sym b.1)
]
  where
    first_is :
        (rows : List EventRow) (f : ℤ) (row : EventRow)
        → head rows ≡ some row
        → row.id ≡ f
        → any (λ row. eq_ℤ row.id f) rows ≡ true
    first_is [] f row e i = absurd (cc)
    first_is (x ∷ rows) f row e i = ground (arith, eq_ℤ_iff x.id f)

pub any-Under :
    (id f : ℤ) (rows : List EventRow)
    → Under id rows
    → any (λ row. eq_ℤ row.id f) rows ≡ true
    → ltb_ℤ f id ≡ true
any-Under id f [] h k = absurd (cc)
any-Under id f (row ∷ rows) h k = ground (arith, h.0, any-Under id f rows h.1, eq_ℤ_iff row.id f)

-- Above all events, a floor leaves every body out alike.
named_below-Under :
    (a b : ℤ) (key : Bytes) (rows : List EventRow)
    → Under a rows
    → Under b rows
    → named_below rows a key ≡ named_below rows b key
unfolding named_below
named_below-Under a b key [] h k = refl
named_below-Under a b key (row ∷ rows) h k =
    ground (arith, h.0, k.0, named_below-Under a b key rows h.1 k.1)

named_from-Under :
    (a : ℤ) (key : Bytes) (rows : List EventRow) → Under a rows → named_from rows a key ≡ false
unfolding named_from
named_from-Under a key [] h = refl
named_from-Under a key (row ∷ rows) h = ground (arith, h.0, named_from-Under a key rows h.1)

pub is_prunable-Under :
    (a b : ℤ) (key : Bytes) (rows : List EventRow) (e : Bytes × Bytes)
    → Under a rows
    → Under b rows
    → is_prunable rows a key e ≡ is_prunable rows b key e
is_prunable-Under a b key rows e h k = ground (
  arith,
  named_below-Under a b e.0 rows h k,
  named_from-Under a e.0 rows h,
  named_from-Under b e.0 rows k,
)

pub nothing_named :
    (a : ℤ) (key : Bytes) (rows : List EventRow) (m : List (Bytes × Bytes))
    → body_rows rows ≡ []
    → total_len (filter (is_prunable rows a key) m) ≡ 0
unfolding total_len named_below
nothing_named a key rows [] h = refl
nothing_named a key rows ((k, b) ∷ m) h = ground (
  arith,
  nothing_named a key rows m h,
  any-plain (λ r. ltb_ℤ r.id a && eq_bytes k r.body_sha256) rows h,
)

last_entry-cons :
    (row : EventRow) (rows : List EventRow)
    → (last : EventRow) × (last_entry (row ∷ rows) ≡ some last)
last_entry-cons row [] = (row, refl)
last_entry-cons row (next ∷ rows) =
    let (last, e) = last_entry-cons next rows in (last, ground (arith, e))

pub next_event_id-Under : (rows : List EventRow) → Rising rows → Under (next_event_id rows) rows
next_event_id-Under [] h = tt
next_event_id-Under (row ∷ rows) h =
    let (last, e) = last_entry-cons row rows in
    let next : next_id last.id ≡ next_event_id (row ∷ rows) = ground arith in
    subst (λ i. Under i (row ∷ rows)) next (Rising-Under (row ∷ rows) last h e)

last_entry-Under :
    (rows : List EventRow) (id : ℤ) (last : EventRow)
    → Under id rows
    → last_entry rows ≡ some last
    → ltb_ℤ last.id id ≡ true
last_entry-Under [] id last h e = absurd (cc)
last_entry-Under (row ∷ rows) id last h e = ground (arith, h.0, last_entry-Under rows id last h.1)

next_id-least : (a b : ℤ) → ltb_ℤ a b ≡ true → leb_ℤ (next_id a) b ≡ true
next_id-least (pos a) b h = ground arith
next_id-least (negsuc zero) b h = ground arith
next_id-least (negsuc (suc a)) b h = ground arith

pub next_event_id-least :
    (rows : List EventRow) (id : ℤ)
    → Under id rows
    → leb_ℤ (pos 1) id ≡ true
    → leb_ℤ (next_event_id rows) id ≡ true
next_event_id-least rows id h p = elim (Option-cases (last_entry rows)) [
  | inl e ↦ ground arith
  | inr (last, e) ↦ ground (arith, next_id-least last.id id (last_entry-Under rows id last h e))
]

-- The tables before a write, after its event, and after the start of the retention.
pub record Write (c : Crypto) (db db1 db2 : WorldDb) (body : Bytes) : Type 0 where
  pub extra : List EventRow
  pub row : EventRow
  pub rows : Grown db.events extra row
  pub named : row.body_sha256 ≡ body_sha256_for c body
  pub events : db1.events ≡ grown db.events extra row
  pub floor : db1.first_retained ≡ db.first_retained
  pub bodies : db1.cas_bodies ≡ (insert_missing (body_sha256_for c body) body db.cas_bodies).1
  pub marked : Marked row.id db1 db2
