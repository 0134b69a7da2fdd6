-- ===== src/Http/Ranges.antt =====
-- A range that is served lies in the body, and is the one that was asked for.
use audite_db.Prelude.{
  ℕ, ◌-◌, ◌≡◌, ◌≤◌, ◌<◌, ◌≢◌, ◌⊎◌, refl, true, false, all, All, All-of_all, ◌==◌, lt→ltb, le→leb,
  Option, none, some, [], ◌∷◌, ◌++◌, ok, min, arith, inl, inr, Option-cases, Bool-cases,
}
use audite_db.Prelude.Text.{
  Bytes, codes, eq_bytes, is_ascii_digit, eq_bytes_sound, contains, strip_prefix,
  strip_prefix-append,
}
use audite_db.Prelude.Decimal.{decimal, decimal-all, decimal-ne-nil}
use audite_db.Prelude.Parse.{parse_usize-decimal, usize_max}
use audite_db.Prelude.Utf8.{trim}
use audite_db.WorldPath.{is_empty}
use audite_db.Http.{split_once, parse_spec, parse_range, effective_range, if_range_strong_matches}

parse_spec-bounds :
    (spec : Bytes) (len a b : ℕ) → parse_spec spec len ≡ ok (some (a, b)) → (a ≤ b) × (b < len)
unfolding parse_spec
parse_spec-bounds spec len a b h = ground arith

parse_range-bounds :
    (range : Option Bytes) (len a b : ℕ)
    → parse_range range len ≡ ok (some (a, b))
    → (a ≤ b) × (b < len)
unfolding parse_range
parse_range-bounds none len a b h = cc
parse_range-bounds (some raw) len a b h =
    elim (Option-cases (strip_prefix (codes "bytes=") (trim raw))) [
      | inl bad ↦ absurd (ground arith)
      | inr (spec, found) ↦ parse_spec-bounds spec len a b (ground arith)
    ]

-- A range that is to be served is not empty and lies in the body, so slicing by it cannot fail; and
-- an `If-Range` of the request, if it has one, names the current tag.
pub effective_range-bounds :
    (if_range range : Option Bytes) (len a b : ℕ) (etag : Bytes)
    → effective_range if_range range len etag ≡ ok (some (a, b))
    → (a ≤ b)
      × (b < len)
      × ((if_range ≡ none)
          ⊎ ((t : Bytes) × (if_range ≡ some t) × (trim t ≡ b'"' ∷ etag ++ b'"' ∷ [])))
unfolding effective_range if_range_strong_matches
effective_range-bounds none range len a b etag h =
    let inside = parse_range-bounds range len a b h in (inside.0, inside.1, inl refl)
effective_range-bounds (some t) range len a b etag h =
    elim (Bool-cases (eq_bytes (trim t) (b'"' ∷ etag ++ b'"' ∷ []))) [
      | inl same ↦
          let inside = parse_range-bounds range len a b (ground arith) in
          (inside.0, inside.1, inr (t, refl, eq_bytes_sound _ _ same))
      | inr other ↦ absurd (ground arith)
    ]

split_once-append :
    (c : ℕ) (l r : Bytes) → All (λ b. b ≢ c) l → split_once c (l ++ c ∷ r) ≡ some (l, r)
unfolding split_once
split_once-append c [] r h = ground arith
split_once-append c (b ∷ l) r h = ground (arith, split_once-append c l r h.1)

digit-ne_minus : (b : ℕ) → is_ascii_digit b ≡ true → b ≢ b'-'
digit-ne_minus b h = ground arith

no_comma : (s : Bytes) → all is_ascii_digit s ≡ true → contains b',' s ≡ false
no_comma [] h = refl
no_comma (b ∷ s) h = ground (arith, no_comma s)

no_comma-append :
    (l r : Bytes)
    → all is_ascii_digit l ≡ true
    → all is_ascii_digit r ≡ true
    → contains b',' (l ++ b'-' ∷ r) ≡ false
no_comma-append [] r h k = no_comma r k
no_comma-append (b ∷ l) r h k = ground (arith, no_comma-append l r)

nonzero : (len a : ℕ) → a < len → (len == 0) ≡ false
nonzero len a h = ground arith

nonempty : (s : Bytes) → s ≢ [] → is_empty s ≡ false
nonempty [] h = absurd (h refl)
nonempty (c ∷ s) h = refl

parse_spec-interval :
    (a b len : ℕ)
    → a ≤ b
    → a < len
    → b ≤ usize_max
    → parse_spec (decimal a ++ b'-' ∷ decimal b) len ≡ ok (some (a, min b (len - 1)))
unfolding parse_spec
parse_spec-interval a b len order inside fits = simp (
  no_comma-append (decimal a) (decimal b) (decimal-all a) (decimal-all b),
  split_once-append b'-' (decimal a) (decimal b)
      (All-of_all is_ascii_digit b'-' (decimal a) digit-ne_minus (decimal-all a)),
  nonzero len a inside,
  nonempty (decimal a) (decimal-ne-nil a),
  nonempty (decimal b) (decimal-ne-nil b),
  parse_usize-decimal a (omega arith),
  parse_usize-decimal b fits,
  lt→ltb a len inside,
  le→leb a b order,
)

-- The header `bytes=a-b`, blanks around it apart, is served from `a` to `b` or to the body's end,
-- whichever comes first, if `a` is in the body, `b` is not before it, and `b` is a word.
pub parse_range-interval :
    (raw : Bytes) (a b len : ℕ)
    → trim raw ≡ codes "bytes=" ++ decimal a ++ b'-' ∷ decimal b
    → a ≤ b
    → a < len
    → b ≤ usize_max
    → parse_range (some raw) len ≡ ok (some (a, min b (len - 1)))
unfolding parse_range
parse_range-interval raw a b len spelt order inside fits = simp (
  spelt,
  strip_prefix-append (codes "bytes=") (decimal a ++ b'-' ∷ decimal b),
  parse_spec-interval a b len order inside fits,
)
