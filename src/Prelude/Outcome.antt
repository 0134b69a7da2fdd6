-- ===== src/Prelude/Outcome.antt =====
-- `std::result::Result`, with `?` as bind.
use mathlib.Core.Path.{◌≡◌, refl}
use mathlib.Core.Bool.{Bool, true, false}
use mathlib.Core.Logic.{◌≢◌, ◌⊎◌, inl, inr}
use mathlib.Core.Option.{Option, none, some}

pub data Result {ℓ κ} (E : Type ℓ) (A : Type κ) : Type (ℓ ⊔ κ) where
  ok : A → Result E A
  err : E → Result E A

infixl 5 ◌>>=◌ ◌>>◌
abbrev pub ◌>>=◌ {ℓ κ μ} :
    {E : Type ℓ} {A : Type κ} {B : Type μ} → Result E A → (A → Result E B) → Result E B
ok a >>= f = f a
err e >>= f = err e

abbrev pub ◌>>◌ {ℓ κ μ} :
    {E : Type ℓ} {A : Type κ} {B : Type μ} → Result E A → Result E B → Result E B
m >> k = m >>= λ _. k

-- `if !test { return Err(e) }`
abbrev pub require {ℓ} : {E : Type ℓ} → Bool → E → Result E (Unit {0})
require true e = ok tt
require false e = err e

-- `Option::ok_or`
abbrev pub ok_or {ℓ κ} : {E : Type ℓ} {A : Type κ} → Option A → E → Result E A
ok_or none e = err e
ok_or (some a) e = ok a

-- `Result::map_err`
abbrev pub map_err {ℓ κ μ} :
    {E : Type ℓ} {F : Type κ} {A : Type μ} → (E → F) → Result E A → Result F A
map_err f (ok a) = ok a
map_err f (err e) = err (f e)

pub ok-injective {ℓ κ} :
    {E : Type ℓ} {A : Type κ} {a b : A} → ◌≡◌ {A = Result E A} (ok a) (ok b) → a ≡ b
ok-injective h = cc

pub ok-ne-err {ℓ κ} :
    {E : Type ℓ} {A : Type κ} {a : A} {e : E} → ◌≢◌ {A = Result E A} (ok a) (err e)
ok-ne-err h = cc

pub none-ne-some {ℓ} : {A : Type ℓ} {x : A} → none ≢ some x
none-ne-some h = cc

pub some-injective {ℓ} : {A : Type ℓ} {x y : A} → some x ≡ some y → x ≡ y
some-injective h = cc

-- A chain that succeeds has a first part that did.
pub >>=-eq-ok {ℓ κ μ} :
    {E : Type ℓ} {A : Type κ} {B : Type μ} (first : Result E A) (next : A → Result E B) {out : B}
    → first >>= next ≡ ok out
    → (v : A) × (first ≡ ok v) × (next v ≡ ok out)
>>=-eq-ok (ok v) next succeeded = (v, refl, succeeded)
>>=-eq-ok (err stop) next succeeded = cc

pub >>=-ok {ℓ κ} : {E : Type ℓ} {A : Type κ} (m : Result E A) → (m >>= ok) ≡ m
>>=-ok (ok a) = refl
>>=-ok (err e) = refl

pub >>=_assoc {ℓ κ μ ν} :
    {E : Type ℓ} {A : Type κ} {B : Type μ} {C : Type ν} (m : Result E A) (f : A → Result E B)
    (g : B → Result E C)
    → (m >>= f >>= g) ≡ (m >>= λ a. f a >>= g)
>>=_assoc (ok a) f g = refl
>>=_assoc (err e) f g = refl

pub >>=-eq-err {ℓ κ μ} :
    {E : Type ℓ} {A : Type κ} {B : Type μ} (m : Result E A) (f : A → Result E B) {e : E}
    → (m >>= f) ≡ err e
    → (m ≡ err e) ⊎ ((a : A) × (m ≡ ok a) × (f a ≡ err e))
>>=-eq-err (ok a) f h = inr (a, refl, h)
>>=-eq-err (err d) f h = inl (cc)

-- Two continuations that agree on what the first part gives.
pub >>=-eq_of_ok {ℓ κ μ} :
    {E : Type ℓ} {A : Type κ} {B : Type μ} (m : Result E A) (f g : A → Result E B)
    → ((a : A) → m ≡ ok a → f a ≡ g a)
    → (m >>= f) ≡ (m >>= g)
>>=-eq_of_ok (ok a) f g h = h a refl
>>=-eq_of_ok (err e) f g h = refl

pub Result-cases {ℓ κ} :
    {E : Type ℓ} {A : Type κ} (m : Result E A) → ((a : A) × (m ≡ ok a)) ⊎ ((e : E) × (m ≡ err e))
Result-cases (ok a) = inl (a, refl)
Result-cases (err e) = inr (e, refl)
