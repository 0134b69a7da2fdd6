-- ===== src/Prelude/Parse.antt =====
-- `str::parse` of the integer types, with the kinds of its errors.
use audite_db.Prelude.Tests.{Bool-cases, leb, ◌==◌, if◌then◌else◌}
use audite_db.Prelude.Outcome.{Result, ok, err, ◌>>=◌}
use audite_db.Prelude.Text.{Bytes, is_ascii_digit}
use audite_db.Prelude.Int.{ℤ, pos, negsuc}
use audite_db.Prelude.Decimal.{digits, decimal, decimal-digit, decimal-ne-nil}
use audite_db.Prelude.Lists.{All}
use Prim.Native.Nat.{ℕ, zero, suc, ◌+◌, ◌-◌, ◌*◌, ◌/◌, ◌%◌, ◌^◌, ◌≤◌}
use mathlib.Core.Path.{◌≡◌, refl, ap, ◌∙◌}
use mathlib.Core.List.{[], ◌∷◌}
use mathlib.Core.Logic.{◌≢◌, inl, inr}
use native.Mathlib.Omega.{arith}

pub data IntErrorKind : Type 0 where
  empty invalid_digit pos_overflow neg_overflow : IntErrorKind

abbrev pub i64_max : ℕ
i64_max = 2 ^ 63 - 1

abbrev pub usize_max : ℕ
usize_max = 2 ^ 64 - 1

-- The loop over the digits: the digit is read before the product is found too large.
unfoldable pub scan : ℕ → IntErrorKind → Bytes → ℕ → Result IntErrorKind ℕ
scan limit over [] a = ok a
scan limit over (c ∷ s) a =
    let rest = scan limit over s (a * 10 + (c - b'0')) in
    if is_ascii_digit c
    then (if leb (a * 10 + (c - b'0')) limit then rest else err over)
    else err invalid_digit

scan_some : ℕ → IntErrorKind → Bytes → Result IntErrorKind ℕ
scan_some limit over [] = err invalid_digit
scan_some limit over (c ∷ s) = scan limit over (c ∷ s) 0

unfoldable pub parse_usize : Bytes → Result IntErrorKind ℕ
unfolding scan scan_some
parse_usize [] = err empty
parse_usize (c ∷ s) =
    if c == b'+' then scan_some usize_max pos_overflow s else scan usize_max pos_overflow (c ∷ s) 0

abbrev negate : ℕ → ℤ
negate zero = pos 0
negate (suc n) = negsuc n

unfoldable pub parse_i64 : Bytes → Result IntErrorKind ℤ
unfolding scan scan_some
parse_i64 [] = err empty
parse_i64 (c ∷ s) =
    if c == b'+'
    then (do n ← scan_some i64_max pos_overflow s; ok (pos n))
    else if c == b'-'
    then (do n ← scan_some (suc i64_max) neg_overflow s; ok (negate n))
    else do n ← scan i64_max pos_overflow (c ∷ s) 0; ok (pos n)

scan-bound :
    (limit : ℕ) (over : IntErrorKind) (s : Bytes) (a n : ℕ)
    → a ≤ limit
    → scan limit over s a ≡ ok n
    → n ≤ limit
unfolding scan
scan-bound limit over [] a n small h = ground arith
scan-bound limit over (c ∷ s) a n small h =
    ground (arith, scan-bound limit over s (a * 10 + (c - b'0')) n)

-- A number that is read fits.
pub parse_i64-bound : (s : Bytes) (n : ℕ) → parse_i64 s ≡ ok (pos n) → n ≤ i64_max
unfolding parse_i64 scan_some
parse_i64-bound [] n h = absurd (cc)
parse_i64-bound (c ∷ s) n h = elim (Bool-cases (c == b'+')) [
  | inl plus ↦ signed s (ground arith)
  | inr other ↦ elim (Bool-cases (c == b'-')) [
    | inl minus ↦ ground arith
    | inr plain ↦ scan-bound i64_max pos_overflow (c ∷ s) 0 n (omega arith) (ground arith)
  ]
]
  where
    signed : (s : Bytes) → scan_some i64_max pos_overflow s ≡ ok n → n ≤ i64_max
    signed [] h = absurd (cc)
    signed (d ∷ s) h = scan-bound i64_max pos_overflow (d ∷ s) 0 n (omega arith) h

-- One digit that fits.
scan-cons :
    (limit : ℕ) (over : IntErrorKind) (d a : ℕ) (s : Bytes)
    → d ≤ 9
    → a * 10 + d ≤ limit
    → scan limit over ((b'0' + d) ∷ s) a ≡ scan limit over s (a * 10 + d)
unfolding scan
scan-cons limit over d a s small fits =
    let e : a * 10 + (b'0' + d - b'0') ≡ a * 10 + d = omega arith in rw e (ground arith)

scan-step :
    (limit : ℕ) (over : IntErrorKind) (n : ℕ) (s : Bytes)
    → n ≤ limit
    → scan limit over ((b'0' + n % 10) ∷ s) (n / 10) ≡ scan limit over s n
scan-step limit over n s fits =
    scan-cons limit over (n % 10) (n / 10) s (omega arith) (omega arith)
    ∙ ap (scan limit over s) (omega arith)

-- Reading what `digits` writes.
scan-digits :
    (limit : ℕ) (over : IntErrorKind) (f n : ℕ) (out : Bytes)
    → n ≤ f
    → n ≤ limit
    → scan limit over (digits f n out) 0 ≡ scan limit over out n
unfolding digits
scan-digits limit over zero n out h k = ap (scan limit over out) (omega arith)
scan-digits limit over (suc f) n out h k = ground (
  arith,
  scan-digits limit over f (n / 10) ((b'0' + n % 10) ∷ out) (omega arith) (omega arith),
  scan-step limit over n out k,
)

scan-decimal :
    (limit : ℕ) (over : IntErrorKind) (n : ℕ) → n ≤ limit → scan limit over (decimal n) 0 ≡ ok n
unfolding decimal scan
scan-decimal limit over n h = ground (arith, scan-digits limit over n n [] (omega arith) h)

parse_i64-plain :
    (c : ℕ) (s : Bytes)
    → b'0' ≤ c
    → parse_i64 (c ∷ s) ≡ (scan i64_max pos_overflow (c ∷ s) 0 >>= λ n. ok (pos n))
unfolding parse_i64
parse_i64-plain c s h = ground arith

parse_i64-of_scan :
    (s : Bytes) (n : ℕ)
    → s ≢ []
    → All (λ c. b'0' ≤ c) s
    → scan i64_max pos_overflow s 0 ≡ ok n
    → parse_i64 s ≡ ok (pos n)
parse_i64-of_scan [] n h d e = absurd (h refl)
parse_i64-of_scan (c ∷ s) n h d e = rw (parse_i64-plain c s d.0, e) refl

-- Printing a number and parsing it gives the number back.
pub parse_i64-decimal : (n : ℕ) → n ≤ i64_max → parse_i64 (decimal n) ≡ ok (pos n)
parse_i64-decimal n h =
    parse_i64-of_scan (decimal n) n (decimal-ne-nil n) (decimal-digit n)
      (scan-decimal i64_max pos_overflow n h)

parse_usize-plain :
    (c : ℕ) (s : Bytes) → b'0' ≤ c → parse_usize (c ∷ s) ≡ scan usize_max pos_overflow (c ∷ s) 0
unfolding parse_usize
parse_usize-plain c s h = ground arith

parse_usize-of_scan :
    (s : Bytes) (n : ℕ)
    → s ≢ []
    → All (λ c. b'0' ≤ c) s
    → scan usize_max pos_overflow s 0 ≡ ok n
    → parse_usize s ≡ ok n
parse_usize-of_scan [] n h d e = absurd (h refl)
parse_usize-of_scan (c ∷ s) n h d e = parse_usize-plain c s d.0 ∙ e

pub parse_usize-decimal : (n : ℕ) → n ≤ usize_max → parse_usize (decimal n) ≡ ok n
parse_usize-decimal n h =
    parse_usize-of_scan (decimal n) n (decimal-ne-nil n) (decimal-digit n)
      (scan-decimal usize_max pos_overflow n h)
