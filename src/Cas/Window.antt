-- ===== src/Cas/Window.antt =====
-- The window of retained bodies: what core/src/world/cas.rs keeps in the table is what the body events
-- at or above the floor name, and nothing else.
use audite_db.Prelude.{
  ℕ, ◌≡◌, refl, subst, Bool, true, false, ◌||◌, Option, none, some, List, [], ◌∷◌, All, filter,
  head, last_n, length, inl, inr, Option-cases, arith, if◌then◌else◌,
}
use audite_db.Prelude.Assoc.{lookup, insert, lookup-insert_other}
use audite_db.Prelude.Text.{Bytes, eq_bytes, eq_bytes_iff, eq_bytes_refl}
use audite_db.Prelude.Int.{ℤ, pos, ltb_ℤ, leb_ℤ}
use audite_db.Audit.Events.{EventRow}
use audite_db.Audit.Retention.{WorldDb, is_body_row}
use audite_db.Cas.{insert_missing, body_rows, named_below, named_from}

-- The body of an event is in the table, at its size.
pub record Held (cas : List (Bytes × Bytes)) (row : EventRow) : Type 0 where
  pub body : Bytes
  pub found : lookup row.body_sha256 cas ≡ some body
  pub sized : row.size ≡ pos (length body)

abbrev pub Needs : ℤ → List (Bytes × Bytes) → EventRow → Type 0
Needs floor cas row = is_body_row row ≡ true → ltb_ℤ row.id floor ≡ false → Held cas row

-- Every body event at or above the floor has its body.
abbrev pub Kept : List EventRow → ℤ → List (Bytes × Bytes) → Type 0
Kept events floor cas = All (Needs floor cas) events

-- Every body is that of a body event at or above the floor.
abbrev pub Named : List EventRow → ℤ → List (Bytes × Bytes) → Type 0
Named events floor cas = All (λ e. named_from events floor e.0 ≡ true) cas

-- Before the first body event there is no floor and no body; after it, the table is the bodies from
-- the floor.
pub data Window (db : WorldDb) : Type 0 where
  unstarted : db.first_retained ≡ none → db.cas_bodies ≡ [] → body_rows db.events ≡ [] → Window db
  started :
      (floor : ℤ)
      → db.first_retained ≡ some floor
      → Kept db.events floor db.cas_bodies
      → Named db.events floor db.cas_bodies
      → Window db

-- The higher of a floor, if there is one, and an id.
abbrev pub higher_floor : Option ℤ → ℤ → ℤ
higher_floor none id = id
higher_floor (some floor) id = if leb_ℤ id floor then floor else id

-- The window after a write begins with the oldest of the newest body events, so many as are
-- retained, or where it began before.
pub record Bounded (n : ℕ) (db db' : WorldDb) : Type 0 where
  pub window : Window db'
  pub oldest : EventRow
  pub is_oldest : head (last_n n (body_rows db'.events)) ≡ some oldest
  pub begins : db'.first_retained ≡ some (higher_floor db.first_retained oldest.id)

pub All-map {ℓ κ μ} :
    {A : Type ℓ} (P : A → Type κ) (Q : A → Type μ) (xs : List A)
    → ((x : A) → P x → Q x)
    → All P xs
    → All Q xs
All-map P Q [] f h = tt
All-map P Q (x ∷ xs) f h = (f x h.0, All-map P Q xs f h.1)

pub All-both {ℓ κ μ ν} :
    {A : Type ℓ} (P : A → Type κ) (Q : A → Type μ) (R : A → Type ν) (xs : List A)
    → ((x : A) → P x → Q x → R x)
    → All P xs
    → All Q xs
    → All R xs
All-both P Q R [] f h k = tt
All-both P Q R (x ∷ xs) f h k = (f x h.0 k.0, All-both P Q R xs f h.1 k.1)

pub filter-All {ℓ κ μ} :
    {A : Type ℓ} (P : A → Type κ) (Q : A → Type μ) (p : A → Bool) (xs : List A)
    → ((x : A) → P x → p x ≡ true → Q x)
    → All P xs
    → All Q (filter p xs)
filter-All P Q p [] f h = tt
filter-All P Q p (x ∷ xs) f h =
    let rest = filter-All P Q p xs f h.1 in
    elim (p x) as (λ b. p x ≡ b → All Q (if b then x ∷ filter p xs else filter p xs)) [
      | true ↦ λ e. (f x h.0 e, rest)
      | false ↦ λ e. rest
    ]
      refl

insert-All :
    (P : Bytes → Type 0) (key body : Bytes) (m : List (Bytes × Bytes))
    → P key
    → All (λ e. P e.0) m
    → All (λ e. P e.0) (insert key body m)
unfolding insert
insert-All P key body [] own h = (own, tt)
insert-All P key body ((k, b) ∷ m) own h =
    let rest = insert-All P key body m own h.1 in
    elim (eq_bytes key k)
      as (λ c. All (λ e. P e.0) (if c then (key, body) ∷ m else (k, b) ∷ insert key body m)) [
        | true ↦ (own, h.1)
        | false ↦ (h.0, rest)
      ]

pub insert_missing-All :
    (P : Bytes → Type 0) (key body : Bytes) (m : List (Bytes × Bytes))
    → P key
    → All (λ e. P e.0) m
    → All (λ e. P e.0) (insert_missing key body m).1
unfolding insert_missing
insert_missing-All P key body m own h = elim (Option-cases (lookup key m)) [
  | inl e ↦ subst (All (λ e. P e.0)) (ground arith) (insert-All P key body m own h)
  | inr (b, e) ↦ subst (All (λ e. P e.0)) (ground arith) h
]

pub lookup-filter :
    (p : Bytes → Bool) (key : Bytes) (m : List (Bytes × Bytes))
    → p key ≡ true
    → lookup key (filter (λ e. p e.0) m) ≡ lookup key m
unfolding lookup
lookup-filter p key [] h = refl
lookup-filter p key ((k, b) ∷ m) h = ground (arith, lookup-filter p key m h, eq_bytes_iff key k)

pub lookup-insert_missing :
    (key other body b : Bytes) (m : List (Bytes × Bytes))
    → lookup other m ≡ some b
    → lookup other (insert_missing key body m).1 ≡ some b
unfolding insert_missing
lookup-insert_missing key other body b m h =
    ground (arith, lookup-insert_other other key body m, eq_bytes_iff other key)

-- A body event at or above the floor names its body.
abbrev pub Names : List EventRow → ℤ → EventRow → Type 0
Names events floor row =
    is_body_row row ≡ true
    → ltb_ℤ row.id floor ≡ false
    → named_from events floor row.body_sha256 ≡ true

named_from-more :
    (row : EventRow) (events : List EventRow) (floor : ℤ) (key : Bytes)
    → named_from events floor key ≡ true
    → named_from (row ∷ events) floor key ≡ true
unfolding named_from
named_from-more row events floor key h = ground arith

named_from-own :
    (row : EventRow) (events : List EventRow) (floor : ℤ) → Names (row ∷ events) floor row
unfolding named_from
named_from-own row events floor b l = ground (arith, eq_bytes_refl row.body_sha256)

pub named_from-member : (events : List EventRow) (floor : ℤ) → All (Names events floor) events
named_from-member [] floor = tt
named_from-member (row ∷ events) floor = (
  named_from-own row events floor,
  All-map (Names events floor) (Names (row ∷ events) floor) events
      (λ r h b l. named_from-more row events floor r.body_sha256 (h b l))
      (named_from-member events floor),
)

-- A named body is named from a higher floor, or below it.
pub named_from-split :
    (events : List EventRow) (floor higher : ℤ) (key : Bytes)
    → named_from events floor key ≡ true
    → (named_from events higher key || named_below events higher key) ≡ true
unfolding named_from named_below
named_from-split [] floor higher key h = absurd (cc)
named_from-split (row ∷ events) floor higher key h =
    ground (arith, named_from-split events floor higher key)
