-- ===== src/Cas/Order.antt =====
-- The ids of events, which rise: the bounds that core/src/world/cas.rs takes from the newest of them.
use audite_db.Prelude.{
  ℕ, zero, suc, ◌+◌, ◌-◌, ◌≡◌, refl, ap, ◌∙◌, ◌≤◌, ◌<◌, Bool, true, false, some, List, [], ◌∷◌,
  ◌++◌, All, All-append, any, filter, head, last_n, drop, length, arith, length-append,
  if◌then◌else◌,
}
use audite_db.Prelude.Int.{ℤ, pos, negsuc, ltb_ℤ, leb_ℤ, eq_ℤ, eq_ℤ_iff}
use audite_db.Audit.Events.{EventRow}
use audite_db.Audit.Access.{last_entry}
use audite_db.Audit.Walk.Grouping.{Ascending}
use audite_db.Cas.Estimates.{next_id}

abbrev pub Before : ℤ → List EventRow → Type 0
Before id rows = All (λ row. ltb_ℤ id row.id ≡ true) rows

-- Every row is before all that follow it.
abbrev pub Rising : List EventRow → Type 0
Rising [] = Unit
Rising (row ∷ rows) = Before row.id rows × Rising rows

ltb_ℤ-trans : (a b c : ℤ) → ltb_ℤ a b ≡ true → ltb_ℤ b c ≡ true → ltb_ℤ a c ≡ true
ltb_ℤ-trans a b c h k = ground arith

Before-trans : (a b : ℤ) (rows : List EventRow) → ltb_ℤ a b ≡ true → Before b rows → Before a rows
Before-trans a b [] h k = tt
Before-trans a b (row ∷ rows) h k = (ltb_ℤ-trans a b row.id h k.0, Before-trans a b rows h k.1)

pub Ascending-Rising : (rows : List EventRow) → Ascending rows → Rising rows
Ascending-Rising [] h = tt
Ascending-Rising (x ∷ []) h = (tt, tt)
Ascending-Rising (x ∷ y ∷ rows) h =
    let rest = Ascending-Rising (y ∷ rows) h.1 in
    ((h.0, Before-trans x.id y.id rows h.0 rest.0), rest)

Before-filter :
    (p : EventRow → Bool) (id : ℤ) (rows : List EventRow)
    → Before id rows
    → Before id (filter p rows)
Before-filter p id [] h = tt
Before-filter p id (row ∷ rows) h =
    elim (p row) as (λ b. Before id (if b then row ∷ filter p rows else filter p rows)) [
      | true ↦ (h.0, Before-filter p id rows h.1)
      | false ↦ Before-filter p id rows h.1
    ]

pub Rising-filter :
    (p : EventRow → Bool) (rows : List EventRow) → Rising rows → Rising (filter p rows)
Rising-filter p [] h = tt
Rising-filter p (row ∷ rows) h =
    elim (p row) as (λ b. Rising (if b then row ∷ filter p rows else filter p rows)) [
      | true ↦ (Before-filter p row.id rows h.0, Rising-filter p rows h.1)
      | false ↦ Rising-filter p rows h.1
    ]

pub leb_ℤ-lt : (a b : ℤ) → ltb_ℤ a b ≡ true → leb_ℤ a b ≡ true
leb_ℤ-lt a b h = ground arith

pub leb_ℤ-refl : (a : ℤ) → leb_ℤ a a ≡ true
leb_ℤ-refl a = ground arith

pub eq-leb_ℤ : (a b : ℤ) → eq_ℤ b a ≡ true → leb_ℤ a b ≡ true
eq-leb_ℤ a b h = ground arith

any-Before :
    (id f : ℤ) (rows : List EventRow)
    → Before id rows
    → any (λ row. eq_ℤ row.id f) rows ≡ true
    → ltb_ℤ id f ≡ true
any-Before id f [] h k = absurd (cc)
any-Before id f (row ∷ rows) h k = ground (arith, h.0, any-Before id f rows h.1, eq_ℤ_iff row.id f)

-- The first id is the least.
pub head-least :
    (rows : List EventRow) (first : EventRow) (f : ℤ)
    → Rising rows
    → head rows ≡ some first
    → any (λ row. eq_ℤ row.id f) rows ≡ true
    → leb_ℤ first.id f ≡ true
head-least [] first f h e k = absurd (cc)
head-least (row ∷ rows) first f h e k =
    ground (arith, any-Before row.id f rows h.0, eq-leb_ℤ row.id f, leb_ℤ-lt row.id f)

next_id-above : (a b : ℤ) → leb_ℤ a b ≡ true → ltb_ℤ a (next_id b) ≡ true
next_id-above a (pos b) h = ground arith
next_id-above a (negsuc zero) h = ground arith
next_id-above a (negsuc (suc b)) h = ground arith

-- All ids are below the bound.
abbrev pub Under : ℤ → List EventRow → Type 0
Under id rows = All (λ row. ltb_ℤ row.id id ≡ true) rows

leb_ltb_trans : (a b c : ℤ) → ltb_ℤ a b ≡ true → leb_ℤ b c ≡ true → ltb_ℤ a c ≡ true
leb_ltb_trans a b c h k = ground arith

last_entry-member :
    (rows : List EventRow) (id : ℤ) (last : EventRow)
    → Before id rows
    → last_entry rows ≡ some last
    → ltb_ℤ id last.id ≡ true
last_entry-member [] id last h e = absurd (cc)
last_entry-member (row ∷ rows) id last h e = ground (arith, last_entry-member rows id last h.1, h.0)

-- Every id is below the one after the last.
pub Rising-Under :
    (rows : List EventRow) (last : EventRow)
    → Rising rows
    → last_entry rows ≡ some last
    → Under (next_id last.id) rows
Rising-Under [] last h e = tt
Rising-Under (row ∷ []) last h e = (
  next_id-above row.id last.id
      (ground (arith, (eq_ℤ_iff row.id row.id).1 refl, eq-leb_ℤ row.id row.id)),
  tt,
)
Rising-Under (row ∷ next ∷ rows) last h e =
    let later : last_entry (next ∷ rows) ≡ some last = ground arith in
    (
      next_id-above row.id last.id
          (leb_ℤ-lt row.id last.id (last_entry-member (next ∷ rows) row.id last h.0 later)),
      Rising-Under (next ∷ rows) last h.1 later,
    )

head-drop {ℓ} :
    {A : Type ℓ} (k : ℕ) (xs ys : List A)
    → k < length xs
    → head (drop k (xs ++ ys)) ≡ head (drop k xs)
head-drop k [] ys h = absurd (omega arith)
head-drop zero (x ∷ xs) ys h = refl
head-drop (suc k) (x ∷ xs) ys h = head-drop k xs ys (omega arith)

drop-append {ℓ} : {A : Type ℓ} (xs ys : List A) → drop (length xs) (xs ++ ys) ≡ ys
drop-append [] ys = refl
drop-append (x ∷ xs) ys = drop-append xs ys

-- The newest of a list with one more member: it alone, or those that were newest and it.
pub last_n-one {ℓ} : {A : Type ℓ} (xs : List A) (y : A) → last_n 1 (xs ++ y ∷ []) ≡ y ∷ []
last_n-one xs y =
    ap (λ k. drop k (xs ++ y ∷ [])) (omega (arith, length-append xs (y ∷ [])))
    ∙ drop-append xs (y ∷ [])

pub head-last_n {ℓ} :
    {A : Type ℓ} (n : ℕ) (xs : List A) (y : A)
    → 2 ≤ n
    → n ≤ length xs + 1
    → head (last_n n (xs ++ y ∷ [])) ≡ head (last_n (n - 1) xs)
head-last_n n xs y low high =
    ap (λ k. head (drop k (xs ++ y ∷ []))) (omega (arith, length-append xs (y ∷ [])))
    ∙ head-drop (length xs - (n - 1)) xs (y ∷ []) (omega arith)

pub last_n-all {ℓ} : {A : Type ℓ} (n : ℕ) (xs : List A) → length xs ≤ n → last_n n xs ≡ xs
last_n-all n xs h =
    let none_dropped : length xs - n ≡ 0 = omega arith in ap (λ k. drop k xs) none_dropped

pub All-filter {ℓ κ} :
    {A : Type ℓ} (P : A → Type κ) (p : A → Bool) (xs : List A) → All P xs → All P (filter p xs)
All-filter P p [] h = tt
All-filter P p (x ∷ xs) h =
    elim (p x) as (λ b. All P (if b then x ∷ filter p xs else filter p xs)) [
      | true ↦ (h.0, All-filter P p xs h.1)
      | false ↦ All-filter P p xs h.1
    ]

-- A member of a list that is long enough.
pub head-drop-some {ℓ κ} :
    {A : Type ℓ} (P : A → Type κ) (k : ℕ) (xs : List A)
    → k < length xs
    → All P xs
    → (x : A) × (head (drop k xs) ≡ some x) × P x
head-drop-some P k [] h a = absurd (omega arith)
head-drop-some P zero (x ∷ xs) h a = (x, refl, a.0)
head-drop-some P (suc k) (x ∷ xs) h a = head-drop-some P k xs (omega arith) a.1

pub head-append {ℓ} : {A : Type ℓ} (xs : List A) (y : A) → (x : A) × (head (xs ++ y ∷ []) ≡ some x)
head-append [] y = (y, refl)
head-append (x ∷ xs) y = (x, refl)

pub Rising-append :
    (rows : List EventRow) (row : EventRow)
    → Rising rows
    → Under row.id rows
    → Rising (rows ++ row ∷ [])
Rising-append [] row h u = (tt, tt)
Rising-append (x ∷ rows) row h u = (
  All-append (λ r. ltb_ℤ x.id r.id ≡ true) rows (row ∷ []) h.0 (u.0, tt),
  Rising-append rows row h.1 u.1,
)
