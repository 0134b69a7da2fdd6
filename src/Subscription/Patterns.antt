-- ===== src/Subscription/Patterns.antt =====
-- Which worlds a pattern matches.
use audite_db.Prelude.{◌≡◌, ◌↔◌, true, some, [], ◌∷◌, ◌++◌, refl, ok, arith}
use audite_db.Prelude.Text.{Bytes, eq_bytes, eq_bytes_iff, starts_with, strip_prefix}
use audite_db.WorldPath.Accepted.{from_canonical_iff}
use audite_db.Etag.{strip_suffix_byte}
use audite_db.Subscription.{without_slash, matches_world, exact_world}

exact_world-matches :
    (p w v : Bytes)
    → exact_world p ≡ ok (some w)
    → (w ≡ without_slash p) × (matches_world p v ≡ eq_bytes v (without_slash p))
unfolding exact_world matches_world
exact_world-matches p w v h = ground (arith, from_canonical_iff (without_slash p) w)

-- A subscription whose pattern names one world, which is what a replay from the chain asks for, is
-- told of the changes of that world and of no other.
pub matches_world-exact :
    (p w v : Bytes) → exact_world p ≡ ok (some w) → (matches_world p v ≡ true) ↔ (v ≡ w)
matches_world-exact p w v h =
    let named = exact_world-matches p w v h in
    let same = eq_bytes_iff v (without_slash p) in ground (arith, named, same)

strip_suffix_byte-append : (p : Bytes) → strip_suffix_byte b'*' (p ++ b'*' ∷ []) ≡ some p
unfolding strip_suffix_byte
strip_suffix_byte-append [] = refl
strip_suffix_byte-append (c ∷ []) = refl
strip_suffix_byte-append (c ∷ d ∷ p) = rw (strip_suffix_byte-append (d ∷ p)) refl

-- A trailing star makes a pattern of a prefix: it matches exactly the worlds whose names begin with
-- what stands before it, a leading slash apart; alone it matches every world.
matches_world-star :
    (p v : Bytes) → matches_world (p ++ b'*' ∷ []) v ≡ starts_with (without_slash p) v
unfolding matches_world starts_with strip_prefix eq_bytes
matches_world-star [] v = refl
matches_world-star (c ∷ []) v = ground (arith, strip_suffix_byte-append (c ∷ []))
matches_world-star (c ∷ d ∷ p) v = ground (arith, strip_suffix_byte-append (c ∷ d ∷ p))
