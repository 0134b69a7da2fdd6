-- ===== src/Etag.antt =====
-- core/src/etag.rs: entity tags, and the preconditions of a request.
pub mod Matching
use audite_db.Prelude.{
  ℕ, ◌≡◌, Bool, true, false, not, ◌&&◌, Option, none, some, List, [], ◌∷◌, ◌++◌, map, Result, ok,
  err, any, require, ◌>>=◌, ◌>>◌, if◌then◌else◌,
}
use audite_db.Prelude.Text.{Bytes, codes, eq_bytes, strip_prefix, contains, segments}
use audite_db.Prelude.Utf8.{trim}
use audite_db.Timeline.{Crypto}

abbrev pub hmac_etag : Bytes → Bytes
hmac_etag hmac = codes "hmac-" ++ hmac

abbrev pub body_etag : Crypto → Bytes → Bytes
body_etag c body = codes "sha256-" ++ c.sha256_hex body

pub data EtagMatcher : Type 0 where
  any_tag invalid : EtagMatcher
  strong weak : Bytes → EtagMatcher

pub record Preconditions : Type 0 where
  pub if_match : List EtagMatcher
  pub if_none_match : List EtagMatcher

pub data PreconditionError : Type 0 where
  if_match_requires_existing if_match_did_not_match if_none_match_matched : PreconditionError

unfoldable pub strong_matches : Bytes → EtagMatcher → Bool
strong_matches current any_tag = true
strong_matches current (strong value) = eq_bytes value current
strong_matches current (weak value) = false
strong_matches current invalid = false

unfoldable pub weak_matches : Bytes → EtagMatcher → Bool
weak_matches current any_tag = true
weak_matches current (strong value) = eq_bytes value current
weak_matches current (weak value) = eq_bytes value current
weak_matches current invalid = false

abbrev pub is_nil {ℓ} : {A : Type ℓ} → List A → Bool
is_nil [] = true
is_nil (a ∷ l) = false

unfoldable pub check_if_match :
    List EtagMatcher → Option Bytes → Result PreconditionError (Unit {0})
unfolding strong_matches
check_if_match if_match current_tag = if is_nil if_match then ok tt else elim current_tag [
  | none ↦ err if_match_requires_existing
  | some tag ↦ require (any (strong_matches tag) if_match) if_match_did_not_match
]

unfoldable pub check_if_none_match :
    List EtagMatcher → Option Bytes → Result PreconditionError (Unit {0})
unfolding weak_matches
check_if_none_match if_none_match current_tag = elim current_tag [
  | none ↦ ok tt
  | some tag ↦ require (not (any (weak_matches tag) if_none_match)) if_none_match_matched
]

unfoldable pub check_preconditions :
    Preconditions → Option Bytes → Result PreconditionError (Unit {0})
unfolding check_if_match check_if_none_match
check_preconditions p current_tag = do
  check_if_match p.if_match current_tag
  check_if_none_match p.if_none_match current_tag

-- `v.strip_suffix('"')`
unfoldable pub strip_suffix_byte : ℕ → Bytes → Option Bytes
strip_suffix_byte b [] = none
strip_suffix_byte b (c ∷ s) =
    let rest = strip_suffix_byte b s in
    elim s [
      | [] ↦ if audite_db.Prelude.◌==◌ c b then some [] else none
      | d ∷ t ↦ elim rest [ none ↦ none | some r ↦ some (c ∷ r) ]
    ]

unfoldable pub quoted_etag : Bytes → Option Bytes
unfolding strip_suffix_byte
quoted_etag candidate = elim (strip_prefix (b'"' ∷ []) (trim candidate)) [
  | none ↦ none
  | some v ↦ elim (strip_suffix_byte b'"' v) [
    | none ↦ none
    | some value ↦ if contains b'"' value then none else some value
  ]
]

abbrev weak_prefix : Bytes → Option Bytes
weak_prefix candidate = elim (strip_prefix (codes "W/") candidate) [
  | some rest ↦ some rest
  | none ↦ strip_prefix (codes "w/") candidate
]

unfoldable pub parse_etag_matcher : Bytes → EtagMatcher
unfolding quoted_etag
parse_etag_matcher candidate =
    if eq_bytes candidate (codes "*") then any_tag else elim (weak_prefix candidate) [
      | some rest ↦ elim (quoted_etag rest) [ some value ↦ weak value | none ↦ invalid ]
      | none ↦ elim (quoted_etag candidate) [ some value ↦ strong value | none ↦ invalid ]
    ]

abbrev non_empty : List Bytes → List Bytes
non_empty [] = []
non_empty (s ∷ l) = let rest = non_empty l in if is_nil s then rest else s ∷ rest

unfoldable pub parse_etag_matchers : Bytes → List EtagMatcher
unfolding parse_etag_matcher
parse_etag_matchers raw = map parse_etag_matcher (non_empty (map trim (segments b',' raw)))
