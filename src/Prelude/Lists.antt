-- ===== src/Prelude/Lists.antt =====
-- Lists measured by native numbers, under the library's names, and predicates on all members.
use Prim.Native.Nat.{ℕ, zero, suc, ◌+◌, ◌-◌}
use mathlib.Core.Path.{◌≡◌, refl, sym, ap, ◌∙◌}
use mathlib.Core.Bool.{Bool, true, false, ◌&&◌, ◌||◌}
use mathlib.Core.List.{List, [], ◌∷◌, ◌++◌, map, append-nil}
use mathlib.Core.Logic.{◌≢◌}
use mathlib.Core.Option.{Option, none, some}
use native.Mathlib.Omega.{arith}
use audite_db.Prelude.Tests.{if◌then◌else◌}

module _ {ℓ} {A : Type ℓ} where
  abbrev pub length : List A → ℕ
  length [] = 0
  length (x ∷ xs) = suc (length xs)

  abbrev pub get_elem? : List A → ℕ → Option A
  get_elem? [] i = none
  get_elem? (x ∷ xs) zero = some x
  get_elem? (x ∷ xs) (suc i) = get_elem? xs i

  abbrev pub take : ℕ → List A → List A
  take zero xs = []
  take (suc n) [] = []
  take (suc n) (x ∷ xs) = x ∷ take n xs

  abbrev pub drop : ℕ → List A → List A
  drop zero xs = xs
  drop (suc n) [] = []
  drop (suc n) (x ∷ xs) = drop n xs

  pub length-append : (xs ys : List A) → length (xs ++ ys) ≡ length xs + length ys
  length-append [] ys = omega arith
  length-append (x ∷ xs) ys = omega (arith, length-append xs ys)

  -- The tests of the standard library's `Iterator::any` and `Iterator::all`.
  abbrev pub any : (A → Bool) → List A → Bool
  any p [] = false
  any p (x ∷ xs) = p x || any p xs

  abbrev pub all : (A → Bool) → List A → Bool
  all p [] = true
  all p (x ∷ xs) = p x && all p xs

  -- `Iterator::filter`
  abbrev pub filter : (A → Bool) → List A → List A
  filter p [] = []
  filter p (x ∷ xs) = let rest = filter p xs in if p x then x ∷ rest else rest

  abbrev pub head : List A → Option A
  head [] = none
  head (x ∷ xs) = some x

  -- The last members, at most so many.
  abbrev pub last_n : ℕ → List A → List A
  last_n n xs = drop (length xs - n) xs

module _ {ℓ κ} {A : Type ℓ} where
  abbrev pub All : (A → Type κ) → List A → Type κ
  All P [] = Unit
  All P (x ∷ xs) = P x × All P xs

  pub All-append :
      (P : A → Type κ) (front back : List A) → All P front → All P back → All P (front ++ back)
  All-append P [] back left right = right
  All-append P (x ∷ front) back left right = (left.0, All-append P front back left.1 right)

module _ {ℓ} {A : Type ℓ} where
  -- Two lists that begin alike at equal lengths have equal parts.
  pub append-cancel :
      (xs ys us vs : List A) → length xs ≡ length ys → xs ++ us ≡ ys ++ vs → (xs ≡ ys) × (us ≡ vs)
  append-cancel [] [] us vs h e = (refl, e)
  append-cancel [] (y ∷ ys) us vs h e = absurd (omega arith)
  append-cancel (x ∷ xs) [] us vs h e = absurd (omega arith)
  append-cancel (x ∷ xs) (y ∷ ys) us vs h e =
      let rest = append-cancel xs ys us vs (omega arith) (cc) in (cc (rest.0), rest.1)

  pub append-cancel_left : (xs us vs : List A) → xs ++ us ≡ xs ++ vs → us ≡ vs
  append-cancel_left [] us vs e = e
  append-cancel_left (x ∷ xs) us vs e = append-cancel_left xs us vs (cc)

-- The first list reversed onto the second.
module _ {ℓ} {A : Type ℓ} where
  abbrev pub rev_onto : List A → List A → List A
  rev_onto [] out = out
  rev_onto (x ∷ xs) out = rev_onto xs (x ∷ out)

  rev_onto_twice : (xs ys zs : List A) → rev_onto (rev_onto xs ys) zs ≡ rev_onto ys (xs ++ zs)
  rev_onto_twice [] ys zs = refl
  rev_onto_twice (x ∷ xs) ys zs = rev_onto_twice xs (x ∷ ys) zs

  pub rev_onto-injective : (xs ys : List A) → rev_onto xs [] ≡ rev_onto ys [] → xs ≡ ys
  rev_onto-injective xs ys e =
      sym (rev_onto_twice xs [] [] ∙ append-nil xs)
      ∙ ap (λ l. rev_onto l []) e
      ∙ (rev_onto_twice ys [] [] ∙ append-nil ys)

pub map-rev_onto {ℓ κ} :
    {A : Type ℓ} {B : Type κ} (f : A → B) (xs ys : List A)
    → map f (rev_onto xs ys) ≡ rev_onto (map f xs) (map f ys)
map-rev_onto f [] ys = refl
map-rev_onto f (x ∷ xs) ys = map-rev_onto f xs (x ∷ ys)

-- `Option::is_some`
abbrev pub is_some {ℓ} : {A : Type ℓ} → Option A → Bool
is_some none = false
is_some (some a) = true

-- What a test excludes.
pub All-of_all :
    (p : ℕ → Bool) (c : ℕ) (s : List ℕ)
    → ((b : ℕ) → p b ≡ true → b ≢ c)
    → all p s ≡ true
    → All (λ b. b ≢ c) s
All-of_all p c [] ne h = tt
All-of_all p c (b ∷ s) ne h = (ne b (ground arith), All-of_all p c s ne (ground arith))
