-- ===== src/Prelude/Decimal.antt =====
-- `to_string` of the integer types.
use audite_db.Prelude.Tests.{◌==◌, if◌then◌else◌}
use audite_db.Prelude.Lists.{All, all}
use audite_db.Prelude.Text.{Bytes, is_ascii_digit}
use audite_db.Prelude.Int.{ℤ, pos, negsuc}
use Prim.Native.Nat.{ℕ, zero, suc, ◌+◌, ◌-◌, ◌*◌, ◌/◌, ◌%◌, ◌≤◌}
use mathlib.Core.Path.{◌≡◌, refl, sym, ap, ◌∙◌, subst}
use mathlib.Core.List.{[], ◌∷◌}
use mathlib.Core.Bool.{true}
use mathlib.Core.Logic.{◌≢◌}
use native.Mathlib.Omega.{arith}

-- The digits of `n` before `out`, on fuel: `n` rounds are enough.
unfoldable pub digits : ℕ → ℕ → Bytes → Bytes
digits zero n out = out
digits (suc f) n out =
    let rest = digits f (n / 10) ((b'0' + n % 10) ∷ out) in if n == 0 then out else rest

unfoldable pub decimal : ℕ → Bytes
unfolding digits
decimal n = if n == 0 then b'0' ∷ [] else digits n n []

unfoldable pub decimal_ℤ : ℤ → Bytes
unfolding decimal
decimal_ℤ (pos n) = decimal n
decimal_ℤ (negsuc n) = b'-' ∷ decimal (suc n)

-- The number that a row of digits stands for, read after `a`.
pub value : Bytes → ℕ → ℕ
value [] a = a
value (c ∷ s) a = value s (a * 10 + (c - b'0'))

value-digits : (f n : ℕ) (out : Bytes) → n ≤ f → value (digits f n out) 0 ≡ value out n
unfolding digits value
value-digits zero n out h = ap (value out) (omega arith)
value-digits (suc f) n out h = ground (arith, value-digits f (n / 10) ((b'0' + n % 10) ∷ out))

pub value-decimal : (n : ℕ) → value (decimal n) 0 ≡ n
unfolding decimal value
value-decimal n = ground (arith, value-digits n n [])

pub decimal-injective : (m n : ℕ) → decimal m ≡ decimal n → m ≡ n
decimal-injective m n e = sym (value-decimal m) ∙ ap (λ s. value s 0) e ∙ value-decimal n

digits-digit :
    (f n : ℕ) (out : Bytes) → All (λ c. b'0' ≤ c) out → All (λ c. b'0' ≤ c) (digits f n out)
unfolding digits
digits-digit zero n out h = h
digits-digit (suc f) n out h =
    ground (arith, digits-digit f (n / 10) ((b'0' + n % 10) ∷ out) (omega arith, h))

pub decimal-digit : (n : ℕ) → All (λ c. b'0' ≤ c) (decimal n)
unfolding decimal
decimal-digit n = ground (arith, digits-digit n n [] tt)

not_minus : (n : ℕ) (s : Bytes) → decimal n ≡ b'-' ∷ s → ⊥
not_minus n s e =
    let h : All (λ c. b'0' ≤ c) (b'-' ∷ s) = subst (All (λ c. b'0' ≤ c)) e (decimal-digit n) in
    absurd (omega (arith, h.0))

pub decimal_ℤ-injective : (m n : ℤ) → decimal_ℤ m ≡ decimal_ℤ n → m ≡ n
unfolding decimal_ℤ
decimal_ℤ-injective (pos m) (pos n) e = ap pos (decimal-injective m n e)
decimal_ℤ-injective (negsuc m) (negsuc n) e = ground (arith, decimal-injective (suc m) (suc n) (cc))
decimal_ℤ-injective (pos m) (negsuc n) e = absurd (not_minus m _ e)
decimal_ℤ-injective (negsuc m) (pos n) e = absurd (not_minus n _ (sym e))

pub decimal-ne-nil : (n : ℕ) → decimal n ≢ []
decimal-ne-nil n e = zero_case n (sym (value-decimal n) ∙ ap (λ s. value s 0) e ∙ empty_value) e
  where
    empty_value : value [] 0 ≡ 0
    empty_value = unfold value in refl

    zero_case : (n : ℕ) → n ≡ 0 → decimal n ≢ []
    zero_case n z e = unfold decimal in cc (z, e)

-- The digits of a number are digits.
digits-all :
    (f n : ℕ) (out : Bytes)
    → all is_ascii_digit out ≡ true
    → all is_ascii_digit (digits f n out) ≡ true
unfolding digits
digits-all zero n out h = h
digits-all (suc f) n out h =
    ground (arith, digits-all f (n / 10) ((b'0' + n % 10) ∷ out) (ground arith))

pub decimal-all : (n : ℕ) → all is_ascii_digit (decimal n) ≡ true
unfolding decimal
decimal-all n = ground (arith, digits-all n n [] refl)
