-- ===== src/Http.antt =====
-- bin/src/server/http/range.rs: the part of a body that a request asks for.
pub mod Ranges
use audite_db.Prelude.{
  ℕ, ◌-◌, ◌≡◌, Bool, true, false, not, Option, none, some, [], ◌∷◌, ◌++◌, Result, ok, err, require,
  map_err, ok_or, ◌>>=◌, ◌>>◌, leb, ltb, min, ◌==◌, if◌then◌else◌,
}
use audite_db.Prelude.Text.{Bytes, codes, eq_bytes, strip_prefix, contains}
use audite_db.Prelude.Parse.{parse_usize}
use audite_db.Prelude.Utf8.{trim}
use audite_db.WorldPath.{is_empty}

-- `s.split_once(c)`
unfoldable pub split_once : ℕ → Bytes → Option (Bytes × Bytes)
split_once c [] = none
split_once c (b ∷ s) =
    let rest = split_once c s in
    if b == c then some ([], s) else elim rest [ none ↦ none | some p ↦ some (b ∷ p.0, p.1) ]

-- The error of a range that cannot be served.
pub data RangeError : Type 0 where
  range_error : RangeError

abbrev pub parsed : Bytes → Result RangeError ℕ
parsed s = map_err (λ e. range_error) (parse_usize s)

-- The last bytes: nothing before the minus sign.
abbrev pub suffix_range : Bytes → ℕ → Result RangeError (Option (ℕ × ℕ))
suffix_range right len = do
  suffix ← parsed right
  require (not (suffix == 0)) range_error
  ok (some (len - min suffix len, len - 1))

abbrev pub last_of : Bytes → ℕ → Result RangeError ℕ
last_of right len = if is_empty right then ok (len - 1) else parsed right

abbrev pub from_start : Bytes → Bytes → ℕ → Result RangeError (Option (ℕ × ℕ))
from_start left right len = do
  start ← parsed left
  require (ltb start len) range_error
  end ← last_of right len
  require (leb start end) range_error
  ok (some (start, min end (len - 1)))

-- The text after `bytes=`
unfoldable pub parse_spec : Bytes → ℕ → Result RangeError (Option (ℕ × ℕ))
unfolding split_once
parse_spec spec len = if contains b',' spec then ok none else do
  ends ← ok_or (split_once b'-' spec) range_error
  require (not (len == 0)) range_error
  if is_empty ends.0 then suffix_range ends.1 len else from_start ends.0 ends.1 len

-- `parse_range`, of the header's text if there is one
unfoldable pub parse_range : Option Bytes → ℕ → Result RangeError (Option (ℕ × ℕ))
unfolding parse_spec
parse_range none len = ok none
parse_range (some raw) len = do
  spec ← ok_or (strip_prefix (codes "bytes=") (trim raw)) range_error
  parse_spec spec len

unfoldable pub if_range_strong_matches : Bytes → Bytes → Bool
if_range_strong_matches value current = eq_bytes (trim value) (b'"' ∷ current ++ b'"' ∷ [])

unfoldable pub effective_range :
    Option Bytes → Option Bytes → ℕ → Bytes → Result RangeError (Option (ℕ × ℕ))
unfolding parse_range if_range_strong_matches
effective_range none range len current_etag = parse_range range len
effective_range (some if_range) range len current_etag =
    if if_range_strong_matches if_range current_etag then parse_range range len else ok none
