-- ===== src/WorldPath/Accepted.antt =====
-- What `validate_world_name` and `from_canonical` accept.
use audite_db.Prelude.{
  ◌≡◌, refl, ◌↔◌, ◌≢◌, inl, inr, true, false, ◌≤◌, [], ◌∷◌, List, ok, arith, All, any, Bool-cases,
  ℕ, ◌+◌, ◌*◌, Bool, not, ◌&&◌, ◌||◌, ◌⊎◌, length, filter, leb, ◌==◌,
}
use audite_db.Prelude.Text.{Bytes, codes, eq_bytes, eq_bytes_iff, segments, contains}
use audite_db.Prelude.Utf8.{chars, is_control}
use audite_db.WorldPath.{
  check_segments, is_empty, is_dot_segment, from_canonical, disk_world_name_len, should_disk_encode,
  is_reserved_world_name, has_canonical_namespace,
}
use audite_db.WorldPath.Rooted.{IsRooted, IsRooted-of_namespace, namespace_tests, reserved_test}
use audite_db.WorldPath.Segments.{IsDotLike, is_dot_segment_iff}

abbrev pub IsPlainSegment : Bytes → Type 0
IsPlainSegment s = (s ≢ []) × ¬ IsDotLike s

plain_segment : (s : Bytes) → is_empty s ≡ false → is_dot_segment s ≡ false → IsPlainSegment s
plain_segment [] e d = cc
plain_segment (c ∷ s) e d = (λ n. cc, λ h. cc ((is_dot_segment_iff (c ∷ s)).1 h))

plain_tests : (s : Bytes) → IsPlainSegment s → (is_empty s ≡ false) × (is_dot_segment s ≡ false)
plain_tests [] p = absurd (p.0 refl)
plain_tests (c ∷ s) p = (
  refl,
  elim (Bool-cases (is_dot_segment (c ∷ s))) [
    | inl dots ↦ absurd (p.1 ((is_dot_segment_iff (c ∷ s)).0 dots))
    | inr fine ↦ fine
  ],
)

check_segments_sound : (l : List Bytes) → check_segments l ≡ ok tt → All IsPlainSegment l
unfolding check_segments
check_segments_sound [] h = tt
check_segments_sound (s ∷ l) h = elim (Bool-cases (is_empty s)) [
  | inl gone ↦ absurd (ground arith)
  | inr some_bytes ↦ elim (Bool-cases (is_dot_segment s)) [
    | inl dots ↦ absurd (ground arith)
    | inr fine ↦ (plain_segment s some_bytes fine, check_segments_sound l (ground arith))
  ]
]

check_segments_complete : (l : List Bytes) → All IsPlainSegment l → check_segments l ≡ ok tt
unfolding check_segments
check_segments_complete [] p = refl
check_segments_complete (s ∷ l) p = ground (arith, plain_tests s p.0, check_segments_complete l p.1)

-- The bytes that a file name spells as three: those outside of printable ASCII, and those that some
-- file system reserves.
abbrev pub is_spelt : ℕ → Bool
is_spelt b = not (leb 32 b && leb b 126) || any (λ x. x == b) (codes "%./\\:*?\"<>| ")

abbrev pub Printable : ℕ → Type 0
Printable c = (32 ≤ c) × ((c ≤ 126) ⊎ (160 ≤ c))

-- What the engine promises of every world path it accepts.
pub record IsWorldPath (w : Bytes) : Type 0 where
  pub short : length w + 2 * length (filter is_spelt w) ≤ 200
  pub rooted : IsRooted w
  pub not_log : w ≢ codes "var/log"
  pub no_backslash : All (λ b. b ≢ 0x5c) w
  pub no_control : All Printable (chars w)
  pub plain : All IsPlainSegment (segments b'/' w)

should_disk_encode-is_spelt : (b : ℕ) → should_disk_encode b ≡ is_spelt b
unfolding should_disk_encode
should_disk_encode-is_spelt b = ground arith

disk_world_name_len-length :
    (w : Bytes) → disk_world_name_len w ≡ length w + 2 * length (filter is_spelt w)
unfolding disk_world_name_len
disk_world_name_len-length [] = refl
disk_world_name_len-length (b ∷ w) =
    let rest = disk_world_name_len-length w in
    elim (Bool-cases (is_spelt b)) [
      | inl h ↦ rw (should_disk_encode-is_spelt b, h) (omega (arith, rest))
      | inr h ↦ rw (should_disk_encode-is_spelt b, h) (omega (arith, rest))
    ]

Printable-of_is_control : (c : ℕ) → is_control c ≡ false → Printable c
unfolding is_control
Printable-of_is_control c h = elim (Bool-cases (leb c 126)) [
  | inl low ↦ (ground arith, inl (ground arith))
  | inr high ↦ (ground arith, inr (ground arith))
]

is_control-of_Printable : (c : ℕ) → Printable c → is_control c ≡ false
unfolding is_control
is_control-of_Printable c (low, inl h) = ground arith
is_control-of_Printable c (low, inr h) = ground arith

module _ (p : ℕ → Bool) (P : ℕ → Type 0) where
  All-of_none : ((b : ℕ) → p b ≡ false → P b) → (s : List ℕ) → any p s ≡ false → All P s
  All-of_none f [] h = tt
  All-of_none f (b ∷ s) h = (f b (ground arith), All-of_none f s (ground arith))

  none-of_All : ((b : ℕ) → P b → p b ≡ false) → (s : List ℕ) → All P s → any p s ≡ false
  none-of_All f [] h = refl
  none-of_All f (b ∷ s) h = ground (arith, f b h.0, none-of_All f s h.1)

other_byte : (b : ℕ) → (b == 0x5c) ≡ false → b ≢ 0x5c
other_byte b h = ground arith

byte_test : (b : ℕ) → b ≢ 0x5c → (b == 0x5c) ≡ false
byte_test b h = ground arith

is_empty-of_rooted : (w : Bytes) → has_canonical_namespace w ≡ true → is_empty w ≡ false
unfolding has_canonical_namespace eq_bytes
is_empty-of_rooted [] h = cc
is_empty-of_rooted (c ∷ w) h = refl

-- What the code tests of an accepted path.
record Tested (w : Bytes) : Type 0 where
  short : leb (disk_world_name_len w) 200 ≡ true
  free : is_reserved_world_name w ≡ false
  no_backslash : contains 0x5c w ≡ false
  no_control : any is_control (chars w) ≡ false
  plain : check_segments (segments b'/' w) ≡ ok tt
  rooted : has_canonical_namespace w ≡ true

from_canonical-Tested : (w v : Bytes) → from_canonical w ≡ ok v → (v ≡ w) × Tested w
unfolding from_canonical
from_canonical-Tested w v h = (
  ground arith,
  record {
    short = ground arith;
    free = ground arith;
    no_backslash = ground arith;
    no_control = ground arith;
    plain = ground arith;
    rooted = ground arith;
  },
)

from_canonical_sound : (w v : Bytes) → from_canonical w ≡ ok v → (v ≡ w) × IsWorldPath w
unfolding is_reserved_world_name
from_canonical_sound w v h =
    let (same, t) = from_canonical-Tested w v h in
    (
      same,
      record {
        short = ground (arith, t.short, disk_world_name_len-length w);
        rooted = IsRooted-of_namespace w t.rooted t.free;
        not_log = λ is. ground (arith, t.free, (eq_bytes_iff w (codes "var/log")).1 is);
        no_backslash = All-of_none (λ b. b == 0x5c) (λ b. b ≢ 0x5c) other_byte w t.no_backslash;
        no_control =
            All-of_none is_control Printable Printable-of_is_control (chars w) t.no_control;
        plain = check_segments_sound (segments b'/' w) t.plain;
      },
    )

from_canonical_complete : (w v : Bytes) → v ≡ w → IsWorldPath w → from_canonical w ≡ ok v
unfolding from_canonical
from_canonical_complete w v e p =
    let rooted = (namespace_tests w p.rooted).0 in
    ground (
      arith,
      p.short,
      disk_world_name_len-length w,
      reserved_test w p.rooted p.not_log,
      none-of_All (λ b. b == 0x5c) (λ b. b ≢ 0x5c) byte_test w p.no_backslash,
      none-of_All is_control Printable is_control-of_Printable (chars w) p.no_control,
      check_segments_complete (segments b'/' w) p.plain,
      rooted,
      is_empty-of_rooted w rooted,
    )

-- A path is accepted as it stands, and exactly if it lies below one of the nine namespaces and is
-- not `var/log`; its bytes, with two more for each that a file name has to spell, are at most 200;
-- it has no backslash and no control character; and no segment is empty or a spelling of `.` or
-- `..`.
pub from_canonical_iff : (w v : Bytes) → (from_canonical w ≡ ok v) ↔ ((v ≡ w) × IsWorldPath w)
from_canonical_iff w v = (from_canonical_sound w v, λ h. from_canonical_complete w v h.0 h.1)
