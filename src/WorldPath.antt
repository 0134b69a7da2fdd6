-- ===== src/WorldPath.antt =====
-- core/src/path.rs, the world paths of core/src/engine_types.rs, and the adapter's
-- canonicalisation in bin/src/server/path.rs.
pub mod Segments
pub mod Rooted
pub mod Accepted
pub mod Canonical
use audite_db.Prelude.{
  ℕ, ◌+◌, ◌≡◌, refl, Bool, true, false, ◌&&◌, ◌||◌, Option, none, some, List, [], ◌∷◌, ◌++◌, Result,
  ok, err, require, ◌>>=◌, ◌>>◌, any, take, drop, leb, ltb, ◌==◌, if◌then◌else◌, not,
}
use audite_db.Prelude.Text.{
  Bytes, codes, eq_bytes, starts_with, strip_prefix, contains, segments, to_ascii_lowercase,
}
use audite_db.Prelude.Utf8.{chars, is_control}

abbrev pub namespace_prefixes : List Bytes
namespace_prefixes =
    codes "home"
    ∷ codes "tmp"
    ∷ codes "dev"
    ∷ codes "sys"
    ∷ codes "etc"
    ∷ codes "lib"
    ∷ codes "boot"
    ∷ codes "usr"
    ∷ codes "var"
    ∷ []

abbrev pub max_disk_world_name_bytes : ℕ
max_disk_world_name_bytes = 200

-- `NAMESPACE_PREFIXES.contains`
abbrev pub is_namespace : Bytes → Bool
is_namespace s = any (λ p. eq_bytes p s) namespace_prefixes

-- The messages of `validate_world_name` and `from_canonical`.
pub data PathError : Type 0 where
  path_is_empty too_long reserved_root backslash control_bytes : PathError
  empty_segment dot_segment missing_namespace : PathError

unfoldable pub should_disk_encode : ℕ → Bool
should_disk_encode b =
    leb b 0x1f
    || leb 0x7f b
    || b == b'%'
    || b == b'.'
    || b == b'/'
    || b == 0x5c
    || b == b':'
    || b == b'*'
    || b == b'?'
    || b == 0x22
    || b == b'<'
    || b == b'>'
    || b == b'|'
    || b == 0x20

unfoldable pub disk_world_name_len : Bytes → ℕ
disk_world_name_len [] = 0
disk_world_name_len (b ∷ s) = (if should_disk_encode b then 3 else 1) + disk_world_name_len s

-- `segment.as_bytes().get(..3).is_some_and(|p| p.eq_ignore_ascii_case(b"%2e"))`: a prefix of three
-- bytes that is absent equals nothing.
unfoldable pub encoded_dot : Bytes → Bool
encoded_dot s = eq_bytes (to_ascii_lowercase (take 3 s)) (codes "%2e")

unfoldable pub strip_dot_token : Bytes → Option Bytes
unfolding encoded_dot
strip_dot_token [] = none
strip_dot_token (c ∷ s) =
    if c == b'.' then some s else if encoded_dot (c ∷ s) then some (drop 3 (c ∷ s)) else none

abbrev pub is_empty : Bytes → Bool
is_empty [] = true
is_empty (c ∷ s) = false

unfoldable pub is_dot_segment : Bytes → Bool
unfolding strip_dot_token
is_dot_segment s = elim (strip_dot_token s) [
  | none ↦ false
  | some rest ↦
      is_empty rest || (elim (strip_dot_token rest) [ none ↦ false | some tail ↦ is_empty tail ])
]

unfoldable pub is_reserved_world_name : Bytes → Bool
is_reserved_world_name w =
    is_namespace w
    || eq_bytes w (codes "proc")
    || eq_bytes w (codes "var/log")
    || starts_with (codes "proc/") w

-- The loop over the segments.
unfoldable pub check_segments : List Bytes → Result PathError (Unit {0})
check_segments [] = ok tt
check_segments (s ∷ rest) = do
  require (not (is_empty s)) empty_segment
  require (not (is_dot_segment s)) dot_segment
  check_segments rest

unfoldable pub validate_world_name : Bytes → Result PathError (Unit {0})
unfolding check_segments
validate_world_name w = do
  require (not (is_empty w)) path_is_empty
  require (leb (disk_world_name_len w) max_disk_world_name_bytes) too_long
  require (not (is_reserved_world_name w)) reserved_root
  require (not (contains 0x5c w)) backslash
  require (not (any is_control (chars w))) control_bytes
  check_segments (segments b'/' w)

-- `split('/').next().unwrap_or("")`
unfoldable pub first_segment : Bytes → Bytes
first_segment [] = []
first_segment (c ∷ s) = let rest = first_segment s in if c == b'/' then [] else c ∷ rest

unfoldable pub has_canonical_namespace : Bytes → Bool
unfolding first_segment
has_canonical_namespace w = is_namespace (first_segment w)

-- `ValidatedWorldPath::from_canonical`
unfoldable pub from_canonical : Bytes → Result PathError Bytes
unfolding validate_world_name has_canonical_namespace
from_canonical w = do
  validate_world_name w
  require (has_canonical_namespace w) missing_namespace
  ok w

-- `trim_start_matches('/')`
unfoldable pub trim_slashes : Bytes → Bytes
trim_slashes [] = []
trim_slashes (c ∷ s) = let rest = trim_slashes s in if c == b'/' then rest else c ∷ s

unfoldable pub canonicalize_path : Bytes → Bytes
unfolding trim_slashes first_segment
canonicalize_path p =
    let stripped = trim_slashes p in
    let first = first_segment stripped in
    if is_namespace first || eq_bytes first (codes "proc")
    then stripped
    else codes "home/" ++ stripped
