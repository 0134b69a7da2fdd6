-- ===== src/Audit/Append/Entries.antt =====
-- The tables after an append of core/src/audit/append.rs: one entry more, and the ids still rise.
use audite_db.Prelude.{
  ℕ, ◌+◌, ◌≡◌, refl, sym, ap, ◌∙◌, subst, true, false, List, [], ◌∷◌, ◌++◌, map, append-nil, All,
  All-append, arith,
}
use audite_db.Prelude.Text.{Bytes}
use audite_db.Prelude.Int.{ℤ, pos, eq_ℤ, ltb_ℤ, leb_ℤ, eq_ℤ_iff}
use audite_db.Audit.Events.{EventRow, Header, Entry}
use audite_db.Audit.Frame.{sort_headers}
use audite_db.Audit.Retention.{WorldDb}
use audite_db.Audit.Walk.{headers_of, entries}
use audite_db.Audit.Walk.Grouping.{Ascending}
use audite_db.Audit.Append.{insert_event}

-- The tables of a world: the ids rise and none is above the last row id that was given.
pub record WellFormed (db : WorldDb) : Type 0 where
  pub ascending : Ascending db.events
  pub numbered : All (λ row. leb_ℤ row.id (pos db.last_rowid) ≡ true) db.events
  pub owned : All (λ h. leb_ℤ h.0 (pos db.last_rowid) ≡ true) db.event_headers

above : (n : ℕ) (a : ℤ) → leb_ℤ a (pos n) ≡ true → ltb_ℤ a (pos (1 + n)) ≡ true
above n a h = ground arith

differs : (n : ℕ) (a : ℤ) → leb_ℤ a (pos n) ≡ true → eq_ℤ a (pos (1 + n)) ≡ false
differs n a h = ground arith

wider : (n : ℕ) (a : ℤ) → leb_ℤ a (pos n) ≡ true → leb_ℤ a (pos (1 + n)) ≡ true
wider n a h = ground arith

All-map {ℓ κ μ} :
    {A : Type ℓ} {P : A → Type κ} {Q : A → Type μ} (f : (x : A) → P x → Q x) (l : List A)
    → All P l
    → All Q l
All-map f [] h = tt
All-map f (x ∷ l) h = (f x h.0, All-map f l h.1)

headers_of-append :
    (l m : List (ℤ × Bytes × Bytes)) (id : ℤ)
    → headers_of (l ++ m) id ≡ headers_of l id ++ headers_of m id
unfolding headers_of
headers_of-append [] m id = refl
headers_of-append ((a, n, v) ∷ l) m id = ground (arith, headers_of-append l m id)

headers_of-none :
    (n : ℕ) (l : List (ℤ × Bytes × Bytes))
    → All (λ h. leb_ℤ h.0 (pos n) ≡ true) l
    → headers_of l (pos (1 + n)) ≡ []
unfolding headers_of
headers_of-none n [] h = refl
headers_of-none n ((a, b, v) ∷ l) h = ground (arith, differs n a h.0, headers_of-none n l h.1)

headers_of-own : (id : ℤ) (hs : List Header) → headers_of (map (λ h. (id, h.0, h.1)) hs) id ≡ hs
unfolding headers_of
headers_of-own id [] = refl
headers_of-own id (h ∷ hs) = ground (arith, (eq_ℤ_iff id id).1 refl, headers_of-own id hs)

headers_of-other :
    (n : ℕ) (a : ℤ) (hs : List Header)
    → leb_ℤ a (pos n) ≡ true
    → headers_of (map (λ h. (pos (1 + n), h.0, h.1)) hs) a ≡ []
unfolding headers_of
headers_of-other n a [] h = refl
headers_of-other n a (k ∷ hs) h = ground (arith, headers_of-other n a hs h)

pub map-append_one {ℓ κ} :
    {A : Type ℓ} {B : Type κ} (f : A → B) (l : List A) (x : A)
    → map f (l ++ x ∷ []) ≡ map f l ++ f x ∷ []
map-append_one f [] x = refl
map-append_one f (y ∷ l) x = ap (λ m. f y ∷ m) (map-append_one f l x)

-- A row of `events` with its headers in a table of headers.
abbrev entry_in : List (ℤ × Bytes × Bytes) → EventRow → Entry
entry_in l row = (row, sort_headers (headers_of l row.id))

abbrev owned_by : ℤ → List Header → List (ℤ × Bytes × Bytes)
owned_by id hs = map (λ h. (id, h.0, h.1)) hs

module _ (n : ℕ) (id : ℤ) (i : id ≡ pos (1 + n)) (l : List (ℤ × Bytes × Bytes))
    (hs : List Header) where
  old_entries :
      (rows : List EventRow)
      → All (λ row. leb_ℤ row.id (pos n) ≡ true) rows
      → map (entry_in (l ++ owned_by id hs)) rows ≡ map (entry_in l) rows
  old_entries [] h = refl
  old_entries (row ∷ rows) h =
      let other : headers_of (owned_by id hs) row.id ≡ [] =
        ap (λ a. headers_of (owned_by a hs) row.id) i ∙ headers_of-other n row.id hs h.0 in
      let e : headers_of (l ++ owned_by id hs) row.id ≡ headers_of l row.id =
        headers_of-append l (owned_by id hs) row.id
        ∙ ap (λ m. headers_of l row.id ++ m) other
        ∙ append-nil (headers_of l row.id) in
      cc (e, old_entries rows h.1)

  new_entry :
      All {A = ℤ × Bytes × Bytes} (λ h. leb_ℤ h.0 (pos n) ≡ true) l
      → headers_of (l ++ owned_by id hs) id ≡ hs
  new_entry h =
      headers_of-append l (owned_by id hs) id
      ∙ ap (λ m. m ++ headers_of (owned_by id hs) id) (ap (headers_of l) i ∙ headers_of-none n l h)
      ∙ (append_nil_left (headers_of (owned_by id hs) id) ∙ headers_of-own id hs)
    where
      append_nil_left : (m : List Header) → [] ++ m ≡ m
      append_nil_left m = refl

-- The table of events, with an event more.
pub entries-insert_event :
    (db : WorldDb) (row : EventRow) (hs : List Header)
    → WellFormed db
    → row.id ≡ pos (1 + db.last_rowid)
    → sort_headers hs ≡ hs
    → entries (insert_event db row hs) ≡ entries db ++ (row, hs) ∷ []
unfolding insert_event
entries-insert_event db row hs w i s =
    let l = db.event_headers ++ owned_by row.id hs in
    let one = map-append_one (entry_in l) db.events row in
    let old = old_entries db.last_rowid row.id i db.event_headers hs db.events w.numbered in
    let new = new_entry db.last_rowid row.id i db.event_headers hs w.owned in
    one
    ∙ ap (λ m. m ++ entry_in l row ∷ []) old
    ∙ ap (λ m. entries db ++ (row, m) ∷ []) (ap sort_headers new ∙ s)

Ascending-append :
    (n : ℕ) (rows : List EventRow) (row : EventRow)
    → row.id ≡ pos (1 + n)
    → All (λ r. leb_ℤ r.id (pos n) ≡ true) rows
    → Ascending rows
    → Ascending (rows ++ row ∷ [])
Ascending-append n [] row i h up = tt
Ascending-append n (x ∷ []) row i h up =
    (subst (λ a. ltb_ℤ x.id a ≡ true) (sym i) (above n x.id h.0), tt)
Ascending-append n (x ∷ y ∷ rows) row i h up = (up.0, Ascending-append n (y ∷ rows) row i h.1 up.1)

owned-new :
    (n : ℕ) (hs : List Header)
    → All {A = ℤ × Bytes × Bytes}
        (λ h. leb_ℤ h.0 (pos (1 + n)) ≡ true)
        (map (λ h. (pos (1 + n), h.0, h.1)) hs)
owned-new n [] = tt
owned-new n (h ∷ hs) = (ground arith, owned-new n hs)

-- Inserting an event under the next row id keeps the tables well formed.
pub insert_event-WellFormed :
    (db : WorldDb) (row : EventRow) (hs : List Header)
    → row.id ≡ pos (1 + db.last_rowid)
    → WellFormed db
    → WellFormed (insert_event db row hs)
unfolding insert_event
insert_event-WellFormed db row hs i w = record {
  ascending = Ascending-append db.last_rowid db.events row i w.numbered w.ascending;
  numbered =
      All-append _ db.events (row ∷ [])
        (All-map (λ r. wider db.last_rowid r.id) db.events w.numbered)
        (subst (λ a. leb_ℤ a (pos (1 + db.last_rowid)) ≡ true) (sym i) (ground arith), tt);
  owned =
      All-append _ db.event_headers _
        (All-map (λ h. wider db.last_rowid h.0) db.event_headers w.owned)
        (subst
          (λ a.
            All {A = ℤ × Bytes × Bytes} (λ h. leb_ℤ h.0 (pos (1 + db.last_rowid)) ≡ true)
              (owned_by a hs))
          (sym i) (owned-new db.last_rowid hs));
}
