-- ===== src/WorldPath/Canonical.antt =====
-- `canonicalize_path` of bin/src/server/path.rs against the engine's world paths.
use audite_db.Prelude.{◌≡◌, refl, Bool, true, ◌||◌, [], ◌∷◌, ◌++◌, ok, arith, Bool-cases, inl, inr}
use audite_db.Prelude.Text.{Bytes, codes, eq_bytes}
use audite_db.WorldPath.{
  is_namespace, first_segment, has_canonical_namespace, from_canonical, trim_slashes,
  canonicalize_path,
}
use audite_db.WorldPath.Accepted.{from_canonical_iff}
use audite_db.WorldPath.Rooted.{namespace_tests}

trim_slashes_idem : (p : Bytes) → trim_slashes (trim_slashes p) ≡ trim_slashes p
unfolding trim_slashes
trim_slashes_idem [] = refl
trim_slashes_idem (c ∷ p) = ground (arith, trim_slashes_idem p)

-- A path whose first segment is a namespace begins with no slash.
trim_slashes-of_rooted : (p : Bytes) → is_namespace (first_segment p) ≡ true → trim_slashes p ≡ p
unfolding trim_slashes first_segment eq_bytes
trim_slashes-of_rooted [] h = refl
trim_slashes-of_rooted (c ∷ p) h = ground arith

abbrev pub names_a_tree : Bytes → Bool
names_a_tree s = is_namespace s || eq_bytes s (codes "proc")

home_prefixed : (s : Bytes) → names_a_tree (first_segment (codes "home/" ++ s)) ≡ true
unfolding first_segment eq_bytes
home_prefixed s = refl

-- Whatever the wire path, the canonical path begins with a namespace or with `proc`.
pub canonicalize_path-rooted :
    (p : Bytes) → names_a_tree (first_segment (canonicalize_path p)) ≡ true
unfolding canonicalize_path
canonicalize_path-rooted p = elim (Bool-cases (names_a_tree (first_segment (trim_slashes p)))) [
  | inl kept ↦ ground arith
  | inr bare ↦ ground (arith, home_prefixed (trim_slashes p))
]

canonicalize_path-of_trimmed :
    (s : Bytes)
    → trim_slashes s ≡ s
    → names_a_tree (first_segment s) ≡ true
    → canonicalize_path s ≡ s
unfolding canonicalize_path
canonicalize_path-of_trimmed s t h = rw (t, h) refl

trim_slashes-home : (s : Bytes) → trim_slashes (codes "home/" ++ s) ≡ codes "home/" ++ s
unfolding trim_slashes
trim_slashes-home s = refl

trim_slashes-canonicalize_path :
    (p : Bytes) → trim_slashes (canonicalize_path p) ≡ canonicalize_path p
unfolding canonicalize_path
trim_slashes-canonicalize_path p =
    elim (Bool-cases (names_a_tree (first_segment (trim_slashes p)))) [
      | inl kept ↦ rw kept (trim_slashes_idem p)
      | inr bare ↦ rw bare (trim_slashes-home (trim_slashes p))
    ]

-- Canonicalising twice is canonicalising once.
pub canonicalize_path_idem :
    (p : Bytes) → canonicalize_path (canonicalize_path p) ≡ canonicalize_path p
canonicalize_path_idem p =
    canonicalize_path-of_trimmed (canonicalize_path p) (trim_slashes-canonicalize_path p)
      (canonicalize_path-rooted p)

rooted-tree : (s : Bytes) → is_namespace s ≡ true → names_a_tree s ≡ true
rooted-tree s h = rw h refl

-- The adapter leaves every path alone that the engine accepts.
pub canonicalize_path-accepted : (w : Bytes) → from_canonical w ≡ ok w → canonicalize_path w ≡ w
unfolding has_canonical_namespace
canonicalize_path-accepted w h =
    let rooted = (namespace_tests w ((from_canonical_iff w w).0 h).1.rooted).0 in
    canonicalize_path-of_trimmed w (trim_slashes-of_rooted w rooted)
      (rooted-tree (first_segment w) rooted)
