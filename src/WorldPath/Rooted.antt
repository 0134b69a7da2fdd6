-- ===== src/WorldPath/Rooted.antt =====
-- The names below the namespaces of core/src/path.rs, against the two tests of them in the code.
use audite_db.Prelude.{
  ◌≡◌, refl, ◌≢◌, true, false, [], ◌∷◌, ◌++◌, List, arith, All, any, Bool-cases, ◌⊎◌, inl, inr, sym,
  ap, ◌∙◌, subst, ◌==◌,
}
use audite_db.Prelude.Text.{Bytes, codes, eq_bytes, eq_bytes_iff, starts_with}
use audite_db.WorldPath.{
  is_reserved_world_name, has_canonical_namespace, first_segment, is_namespace, namespace_prefixes,
}

-- A name below one of the nine namespaces, with nothing said of what follows.
pub data IsRooted : Bytes → Type 0 where
  in_home : (rest : Bytes) → IsRooted (codes "home/" ++ rest)
  in_tmp : (rest : Bytes) → IsRooted (codes "tmp/" ++ rest)
  in_dev : (rest : Bytes) → IsRooted (codes "dev/" ++ rest)
  in_sys : (rest : Bytes) → IsRooted (codes "sys/" ++ rest)
  in_etc : (rest : Bytes) → IsRooted (codes "etc/" ++ rest)
  in_lib : (rest : Bytes) → IsRooted (codes "lib/" ++ rest)
  in_boot : (rest : Bytes) → IsRooted (codes "boot/" ++ rest)
  in_usr : (rest : Bytes) → IsRooted (codes "usr/" ++ rest)
  in_var : (rest : Bytes) → IsRooted (codes "var/" ++ rest)

first_segment-split :
    (w : Bytes) → (w ≡ first_segment w) ⊎ ((rest : Bytes) × (w ≡ first_segment w ++ b'/' ∷ rest))
unfolding first_segment
first_segment-split [] = inl refl
first_segment-split (c ∷ w) = elim (Bool-cases (c == b'/')) [
  | inl slash ↦ inr (w, rw slash (ground arith))
  | inr other ↦ elim (first_segment-split w) [
    | inl whole ↦ inl (rw other (ap (λ x. c ∷ x) whole))
    | inr (rest, is) ↦ inr (rest, rw other (ap (λ x. c ∷ x) is))
  ]
]

-- A first segment that is a namespace leads below it.
IsRooted-in :
    (names : List Bytes) (first rest : Bytes)
    → All (λ n. (r : Bytes) → IsRooted (n ++ b'/' ∷ r)) names
    → any (λ n. eq_bytes n first) names ≡ true
    → IsRooted (first ++ b'/' ∷ rest)
IsRooted-in [] first rest h k = absurd (cc)
IsRooted-in (n ∷ names) first rest h k = elim (Bool-cases (eq_bytes n first)) [
  | inl e ↦ subst (λ f. IsRooted (f ++ b'/' ∷ rest)) ((eq_bytes_iff n first).0 e) (h.0 rest)
  | inr e ↦ IsRooted-in names first rest h.1 (ground arith)
]

namespaces-IsRooted : All (λ n. (r : Bytes) → IsRooted (n ++ b'/' ∷ r)) namespace_prefixes
namespaces-IsRooted =
    (in_home, (in_tmp, (in_dev, (in_sys, (in_etc, (in_lib, (in_boot, (in_usr, (in_var, tt)))))))))

pub IsRooted-of_namespace :
    (w : Bytes) → has_canonical_namespace w ≡ true → is_reserved_world_name w ≡ false → IsRooted w
unfolding has_canonical_namespace is_reserved_world_name
IsRooted-of_namespace w h k = elim (first_segment-split w) [
  | inl whole ↦ absurd (clash (ap is_namespace whole ∙ h) (ground arith))
  | inr (rest, is) ↦
      subst IsRooted (sym is)
        (IsRooted-in namespace_prefixes (first_segment w) rest namespaces-IsRooted h)
]
  where
    clash : is_namespace w ≡ true → is_namespace w ≡ false → ⊥
    clash a b = cc

-- What the code's two tests say of a rooted name.
pub namespace_tests :
    (w : Bytes)
    → IsRooted w
    → (has_canonical_namespace w ≡ true)
      × (is_namespace w ≡ false)
      × (eq_bytes w (codes "proc") ≡ false)
      × (starts_with (codes "proc/") w ≡ false)
unfolding has_canonical_namespace first_segment eq_bytes starts_with
namespace_tests _ (in_home rest) = (refl, refl, refl, refl)
namespace_tests _ (in_tmp rest) = (refl, refl, refl, refl)
namespace_tests _ (in_dev rest) = (refl, refl, refl, refl)
namespace_tests _ (in_sys rest) = (refl, refl, refl, refl)
namespace_tests _ (in_etc rest) = (refl, refl, refl, refl)
namespace_tests _ (in_lib rest) = (refl, refl, refl, refl)
namespace_tests _ (in_boot rest) = (refl, refl, refl, refl)
namespace_tests _ (in_usr rest) = (refl, refl, refl, refl)
namespace_tests _ (in_var rest) = (refl, refl, refl, refl)

pub reserved_test :
    (w : Bytes) → IsRooted w → w ≢ codes "var/log" → is_reserved_world_name w ≡ false
unfolding is_reserved_world_name
reserved_test w r n =
    let (named, whole, proc, below) = namespace_tests w r in
    ground (arith, whole, proc, below, not_log)
  where
    not_log : eq_bytes w (codes "var/log") ≡ false
    not_log = elim (Bool-cases (eq_bytes w (codes "var/log"))) [
      | inl e ↦ absurd (n ((eq_bytes_iff w (codes "var/log")).0 e))
      | inr e ↦ e
    ]
