-- ===== src/Cas/Sums.antt =====
-- The sums of core/src/world/cas.rs: what a body adds to the table, and what a prune takes from it.
use audite_db.Prelude.{
  ◌+◌, ◌≡◌, refl, Bool, false, not, ◌||◌, none, List, [], ◌∷◌, ◌++◌, any, filter, length, arith,
  if◌then◌else◌,
}
use audite_db.Prelude.Assoc.{lookup, insert}
use audite_db.Prelude.Text.{Bytes, eq_bytes_iff}
use audite_db.Cas.{total_len, insert_missing}

pub any-append {ℓ} :
    {A : Type ℓ} (p : A → Bool) (xs ys : List A) → any p (xs ++ ys) ≡ (any p xs || any p ys)
any-append p [] ys = refl
any-append p (x ∷ xs) ys = ground (arith, any-append p xs ys)

pub filter-append {ℓ} :
    {A : Type ℓ} (p : A → Bool) (xs ys : List A) → filter p (xs ++ ys) ≡ filter p xs ++ filter p ys
filter-append p [] ys = refl
filter-append p (x ∷ xs) ys = ground (arith, filter-append p xs ys)

-- What is deleted and what is kept is all.
pub total_len-filter :
    (p : Bytes × Bytes → Bool) (m : List (Bytes × Bytes))
    → total_len (filter p m) + total_len (filter (λ e. not (p e)) m) ≡ total_len m
unfolding total_len
total_len-filter p [] = refl
total_len-filter p ((k, b) ∷ m) = ground (arith, total_len-filter p m)

pub total_len-filter_eq :
    (p q : Bytes × Bytes → Bool) (m : List (Bytes × Bytes))
    → ((e : Bytes × Bytes) → p e ≡ q e)
    → total_len (filter p m) ≡ total_len (filter q m)
unfolding total_len
total_len-filter_eq p q [] h = refl
total_len-filter_eq p q ((k, b) ∷ m) h = ground (arith, total_len-filter_eq p q m h, h (k, b))

total_len-insert :
    (key body : Bytes) (m : List (Bytes × Bytes))
    → lookup key m ≡ none
    → total_len (insert key body m) ≡ total_len m + length body
unfolding total_len lookup insert
total_len-insert key body [] h = ground arith
total_len-insert key body ((k, b) ∷ m) h = ground (arith, total_len-insert key body m)

-- A new body adds its length, and one that is stored adds nothing.
pub total_len-insert_missing :
    (key body : Bytes) (m : List (Bytes × Bytes))
    → total_len (insert_missing key body m).1
      ≡ total_len m + (if (insert_missing key body m).0 then length body else 0)
unfolding insert_missing
total_len-insert_missing key body m = ground (arith, total_len-insert key body m)

-- A row that the test leaves out.
pub filter-insert :
    (p : Bytes → Bool) (key body : Bytes) (m : List (Bytes × Bytes))
    → p key ≡ false
    → filter (λ e. p e.0) (insert key body m) ≡ filter (λ e. p e.0) m
unfolding insert
filter-insert p key body [] h = ground arith
filter-insert p key body ((k, b) ∷ m) h =
    ground (arith, filter-insert p key body m h, eq_bytes_iff key k)

pub filter-insert_missing :
    (p : Bytes → Bool) (key body : Bytes) (m : List (Bytes × Bytes))
    → p key ≡ false
    → filter (λ e. p e.0) (insert_missing key body m).1 ≡ filter (λ e. p e.0) m
unfolding insert_missing
filter-insert_missing p key body m h = ground (arith, filter-insert p key body m h)
