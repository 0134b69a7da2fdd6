-- ===== src/Prelude/Assoc.antt =====
-- A hash map as the list of its keys and values.
use audite_db.Prelude.Tests.{if◌then◌else◌}
use audite_db.Prelude.Text.{Bytes, eq_bytes, eq_bytes_iff, eq_bytes_refl}
use mathlib.Core.Path.{◌≡◌, refl}
use mathlib.Core.Bool.{false}
use mathlib.Core.List.{List, [], ◌∷◌}
use mathlib.Core.Option.{Option, none, some}
use native.Mathlib.Omega.{arith}

module _ {ℓ} {A : Type ℓ} where
  -- `HashMap::get`
  unfoldable pub lookup : Bytes → List (Bytes × A) → Option A
  lookup key [] = none
  lookup key ((k, a) ∷ m) = let rest = lookup key m in if eq_bytes key k then some a else rest

  -- `HashMap::insert`
  unfoldable pub insert : Bytes → A → List (Bytes × A) → List (Bytes × A)
  insert key a [] = (key, a) ∷ []
  insert key a ((k, b) ∷ m) =
      let rest = insert key a m in if eq_bytes key k then (key, a) ∷ m else (k, b) ∷ rest

  -- `HashMap::remove`, of all that stands under the key
  unfoldable pub remove : Bytes → List (Bytes × A) → List (Bytes × A)
  remove key [] = []
  remove key ((k, b) ∷ m) =
      let rest = remove key m in if eq_bytes key k then rest else (k, b) ∷ rest

  pub lookup-insert :
      (key : Bytes) (a : A) (m : List (Bytes × A)) → lookup key (insert key a m) ≡ some a
  unfolding lookup insert
  lookup-insert key a [] = ground (arith, eq_bytes_refl key)
  lookup-insert key a ((k, b) ∷ m) = ground (arith, eq_bytes_refl key, lookup-insert key a m)

  pub lookup-insert_other :
      (key other : Bytes) (a : A) (m : List (Bytes × A))
      → eq_bytes key other ≡ false
      → lookup key (insert other a m) ≡ lookup key m
  unfolding lookup insert
  lookup-insert_other key other a [] h = ground arith
  lookup-insert_other key other a ((k, b) ∷ m) h = ground (
    arith,
    lookup-insert_other key other a m h,
    eq_bytes_iff other k,
    eq_bytes_iff key k,
    eq_bytes_iff key other,
  )

  pub lookup-remove : (key : Bytes) (m : List (Bytes × A)) → lookup key (remove key m) ≡ none
  unfolding lookup remove
  lookup-remove key [] = refl
  lookup-remove key ((k, b) ∷ m) = ground (arith, lookup-remove key m)

  pub lookup-remove_other :
      (key other : Bytes) (m : List (Bytes × A))
      → eq_bytes key other ≡ false
      → lookup key (remove other m) ≡ lookup key m
  unfolding lookup remove
  lookup-remove_other key other [] h = refl
  lookup-remove_other key other ((k, b) ∷ m) h = ground (
    arith,
    lookup-remove_other key other m h,
    eq_bytes_iff other k,
    eq_bytes_iff key k,
    eq_bytes_iff key other,
  )

  pub remove-absent : (key : Bytes) (m : List (Bytes × A)) → lookup key m ≡ none → remove key m ≡ m
  unfolding lookup remove
  remove-absent key [] h = refl
  remove-absent key ((k, b) ∷ m) h = ground (arith, remove-absent key m)
