-- ===== src/Etag/Matching.antt =====
-- `check_preconditions` of core/src/etag.rs against the conditions that it stands for.
use audite_db.Prelude.{
  ◌≡◌, refl, ◌↔◌, ◌⊎◌, inl, Bool, true, Option, none, some, List, [], ◌∷◌, ok, any, arith, ◌>>◌,
}
use audite_db.Prelude.Text.{Bytes, eq_bytes_iff}
use audite_db.Etag.{
  EtagMatcher, any_tag, invalid, strong, weak, Preconditions, strong_matches, weak_matches,
  check_if_match, check_if_none_match, check_preconditions,
}

-- Some matcher of a list has a property.
abbrev pub Some : (EtagMatcher → Type 0) → List EtagMatcher → Type 0
Some P [] = ⊥
Some P (m ∷ ms) = P m ⊎ Some P ms

-- A strong comparison wants the tag itself, in a matcher that is not weak.
abbrev pub Strongly : Bytes → EtagMatcher → Type 0
Strongly tag m = (m ≡ any_tag) ⊎ (m ≡ strong tag)

abbrev pub Weakly : Bytes → EtagMatcher → Type 0
Weakly tag m = (m ≡ any_tag) ⊎ ((m ≡ strong tag) ⊎ (m ≡ weak tag))

strong_matches_iff :
    (tag : Bytes) (m : EtagMatcher) → (strong_matches tag m ≡ true) ↔ Strongly tag m
unfolding strong_matches
strong_matches_iff tag any_tag = (λ h. inl refl, λ h. refl)
strong_matches_iff tag invalid = ground arith
strong_matches_iff tag (strong v) = ground (arith, eq_bytes_iff v tag)
strong_matches_iff tag (weak v) = ground arith

weak_matches_iff : (tag : Bytes) (m : EtagMatcher) → (weak_matches tag m ≡ true) ↔ Weakly tag m
unfolding weak_matches
weak_matches_iff tag any_tag = (λ h. inl refl, λ h. refl)
weak_matches_iff tag invalid = ground arith
weak_matches_iff tag (strong v) = ground (arith, eq_bytes_iff v tag)
weak_matches_iff tag (weak v) = ground (arith, eq_bytes_iff v tag)

any_iff :
    (p : EtagMatcher → Bool) (P : EtagMatcher → Type 0)
    → ((m : EtagMatcher) → (p m ≡ true) ↔ P m)
    → (ms : List EtagMatcher) → (any p ms ≡ true) ↔ Some P ms
any_iff p P each [] = (λ h. cc, λ h. absurd h)
any_iff p P each (m ∷ ms) = ground (arith, each m, any_iff p P each ms)

-- What a request asks of the current tag.
abbrev pub IfMatch : List EtagMatcher → Option Bytes → Type 0
IfMatch ms none = ms ≡ []
IfMatch ms (some tag) = (ms ≡ []) ⊎ Some (Strongly tag) ms

abbrev pub IfNoneMatch : List EtagMatcher → Option Bytes → Type 0
IfNoneMatch ms none = Unit
IfNoneMatch ms (some tag) = ¬ Some (Weakly tag) ms

-- A request passes exactly if every condition that it names holds of the current tag: `If-Match`
-- wants a world and a strong match, `If-None-Match` no weak match. A matcher that could not be parsed
-- matches nothing on either side.
pub check_preconditions_iff :
    (p : Preconditions) (current : Option Bytes)
    → (check_preconditions p current ≡ ok tt)
      ↔ (IfMatch p.if_match current × IfNoneMatch p.if_none_match current)
unfolding check_preconditions check_if_match check_if_none_match
check_preconditions_iff p none = go p.if_match
  where
    go :
        (ms : List EtagMatcher)
        → ((do check_if_match ms none; check_if_none_match p.if_none_match none) ≡ ok tt)
          ↔ ((ms ≡ []) × Unit {0})
    go [] = unfold check_if_match check_if_none_match in ground arith
    go (m ∷ ms) = unfold check_if_match check_if_none_match in ground arith
check_preconditions_iff p (some tag) = go p.if_match
  where
    go :
        (ms : List EtagMatcher)
        → ((do check_if_match ms (some tag); check_if_none_match p.if_none_match (some tag))
            ≡ ok tt)
          ↔ (((ms ≡ []) ⊎ Some (Strongly tag) ms) × ¬ Some (Weakly tag) p.if_none_match)
    go [] =
        unfold check_if_match check_if_none_match in
        ground
          (arith, any_iff (weak_matches tag) (Weakly tag) (weak_matches_iff tag) p.if_none_match)
    go (m ∷ ms) =
        unfold check_if_match check_if_none_match in
        ground (
          arith,
          any_iff (strong_matches tag) (Strongly tag) (strong_matches_iff tag) (m ∷ ms),
          any_iff (weak_matches tag) (Weakly tag) (weak_matches_iff tag) p.if_none_match,
        )
