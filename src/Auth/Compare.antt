-- ===== src/Auth/Compare.antt =====
-- `ct_eq` of core/src/auth.rs against plain equality of byte strings.
use Prim.Native.Nat.{bit_or, bit_xor}
use audite_db.Prelude.{ℕ, ◌≡◌, refl, sym, ◌∙◌, ◌↔◌, true, ◌&&◌, [], ◌∷◌, length, arith, ◌==◌}
use audite_db.Prelude.Bits.{bit_or-eq-zero, bit_xor-eq-zero}
use audite_db.Prelude.Text.{Bytes, eq_bytes, eq_bytes_sound, eq_bytes_iff}
use audite_db.Auth.{ct_diff, ct_eq}

ct_diff-zero :
    (a b : Bytes) (diff : ℕ)
    → length a ≡ length b
    → (ct_diff a b diff == 0) ≡ ((diff == 0) && eq_bytes a b)
unfolding ct_diff eq_bytes
ct_diff-zero [] [] diff h = ground arith
ct_diff-zero [] (y ∷ b) diff h = absurd (omega arith)
ct_diff-zero (x ∷ a) [] diff h = absurd (omega arith)
ct_diff-zero (x ∷ a) (y ∷ b) diff h = ground (
  arith,
  ct_diff-zero a b (bit_or diff (bit_xor x y)) (omega arith),
  bit_or-eq-zero diff (bit_xor x y),
  bit_xor-eq-zero x y,
)

eq_bytes_lengths : (a b : Bytes) → eq_bytes a b ≡ true → length a ≡ length b
unfolding eq_bytes
eq_bytes_lengths [] [] h = refl
eq_bytes_lengths [] (y ∷ b) h = cc
eq_bytes_lengths (x ∷ a) [] h = cc
eq_bytes_lengths (x ∷ a) (y ∷ b) h = ground (arith, eq_bytes_lengths a b)

-- The comparison that never returns early inside equal lengths decides equality of byte strings.
pub ct_eq-eq_bytes : (a b : Bytes) → ct_eq a b ≡ eq_bytes a b
unfolding ct_eq
ct_eq-eq_bytes a b = ground (arith, eq_bytes_lengths a b, ct_diff-zero a b 0)

pub ct_eq_iff : (a b : Bytes) → (ct_eq a b ≡ true) ↔ (a ≡ b)
ct_eq_iff a b = (
  λ e. eq_bytes_sound a b (sym (ct_eq-eq_bytes a b) ∙ e),
  λ e. ct_eq-eq_bytes a b ∙ (eq_bytes_iff a b).1 e,
)
