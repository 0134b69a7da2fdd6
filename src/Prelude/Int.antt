-- ===== src/Prelude/Int.antt =====
-- `i64` values as integers; `negsuc n` is -(n + 1). The program only compares and prints them.
use audite_db.Prelude.Tests.{ltb, leb}
use Prim.Native.Nat.{ℕ}
use mathlib.Core.Path.{◌≡◌}
use mathlib.Core.Bool.{Bool, true, false}
use mathlib.Core.Logic.{◌↔◌}
use native.Mathlib.Omega.{arith}

pub data ℤ : Type 0 where
  pos : ℕ → ℤ
  negsuc : ℕ → ℤ

abbrev pub ltb_ℤ : ℤ → ℤ → Bool
ltb_ℤ (pos a) (pos b) = ltb a b
ltb_ℤ (pos a) (negsuc b) = false
ltb_ℤ (negsuc a) (pos b) = true
ltb_ℤ (negsuc a) (negsuc b) = ltb b a

abbrev pub leb_ℤ : ℤ → ℤ → Bool
leb_ℤ (pos a) (pos b) = leb a b
leb_ℤ (pos a) (negsuc b) = false
leb_ℤ (negsuc a) (pos b) = true
leb_ℤ (negsuc a) (negsuc b) = leb b a

abbrev pub eq_ℤ : ℤ → ℤ → Bool
eq_ℤ (pos a) (pos b) = audite_db.Prelude.Tests.◌==◌ a b
eq_ℤ (pos a) (negsuc b) = false
eq_ℤ (negsuc a) (pos b) = false
eq_ℤ (negsuc a) (negsuc b) = audite_db.Prelude.Tests.◌==◌ a b

pub eq_ℤ_iff : (a b : ℤ) → (eq_ℤ a b ≡ true) ↔ (a ≡ b)
eq_ℤ_iff a b = ground arith
