-- ===== src/Prelude/Bits.antt =====
-- When `|` and `^` of two numbers are zero, from the recursion on binary digits they stand for.
use Prim.Native.Nat.{
  ℕ, zero, suc, ◌/◌, ◌%◌, ◌≤◌, max, digits, differ, bit_or, bit_xor, bit_or-bitwise,
  bit_xor-bitwise,
}
use mathlib.Core.Path.{◌≡◌, refl, sym, ◌∙◌}
use mathlib.Core.Logic.{◌↔◌}
use native.Mathlib.Omega.{arith}
use native.Mathlib.Nat.{le_refl}

or_digits : (n a b : ℕ) → a ≤ n → digits (λ y. y) max n a b ≡ 0 → (a ≡ 0) × (b ≡ 0)
or_digits zero zero b h e = (refl, e)
or_digits zero (suc a) b h e = absurd (omega arith)
or_digits (suc n) zero b h e = (refl, e)
or_digits (suc n) (suc a) b h e =
    let rest = or_digits n (suc a / 2) (b / 2) (omega arith) (omega arith) in omega arith

pub bit_or-eq-zero : (a b : ℕ) → (bit_or a b ≡ 0) ↔ ((a ≡ 0) × (b ≡ 0))
bit_or-eq-zero a b =
    (λ e. or_digits a a b (le_refl a) (sym (bit_or-bitwise a b) ∙ e), λ e. rw (e.0, e.1))

differ-eq_of_zero : (x y : ℕ) → differ x y ≡ 0 → x ≡ y
differ-eq_of_zero zero y e = sym e
differ-eq_of_zero (suc x) zero e = e
differ-eq_of_zero (suc x) (suc y) e = omega (arith, differ-eq_of_zero x y e)

differ_self : (x : ℕ) → differ x x ≡ 0
differ_self zero = refl
differ_self (suc x) = differ_self x

xor_digits : (n a b : ℕ) → a ≤ n → digits (λ y. y) differ n a b ≡ 0 → a ≡ b
xor_digits zero zero b h e = sym e
xor_digits zero (suc a) b h e = absurd (omega arith)
xor_digits (suc n) zero b h e = sym e
xor_digits (suc n) (suc a) b h e =
    let rest = xor_digits n (suc a / 2) (b / 2) (omega arith) (omega arith) in
    omega (arith, differ-eq_of_zero (suc a % 2) (b % 2) (omega arith))

xor_self : (n a : ℕ) → a ≤ n → digits (λ y. y) differ n a a ≡ 0
xor_self zero zero h = refl
xor_self zero (suc a) h = absurd (omega arith)
xor_self (suc n) zero h = refl
xor_self (suc n) (suc a) h =
    omega (arith, xor_self n (suc a / 2) (omega arith), differ_self (suc a % 2))

pub bit_xor-eq-zero : (a b : ℕ) → (bit_xor a b ≡ 0) ↔ (a ≡ b)
bit_xor-eq-zero a b = (
  λ e. xor_digits a a b (le_refl a) (sym (bit_xor-bitwise a b) ∙ e),
  λ e. rw e (bit_xor-bitwise b b ∙ xor_self b b (le_refl b)),
)
