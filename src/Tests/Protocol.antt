-- ===== src/Tests/Protocol.antt =====
-- The theorems on event ids, patterns and ranges, at small inputs.
use audite_db.Prelude.{
  ℕ, ◌+◌, ◌*◌, ◌-◌, ◌≡◌, ◌<◌, ◌≤◌, ◌≢◌, ◌↔◌, ◌⊎◌, refl, true, Option, none, some, [], ◌∷◌, ◌++◌, ok,
  min, arith, ltb, ◌==◌, if◌then◌else◌,
}
use audite_db.Prelude.Text.{Bytes, codes, starts_with, eq_bytes, strip_prefix, segments}
use audite_db.Prelude.Int.{pos}
use audite_db.Prelude.Decimal.{decimal}
use audite_db.Prelude.Parse.{parse_usize}
use audite_db.Prelude.Utf8.{trim, decode_utf8, chars, is_control}
use audite_db.Timeline.{world_generation_of, is_lower_hex}
use audite_db.WorldPath.{
  from_canonical, disk_world_name_len, should_disk_encode, is_reserved_world_name, is_dot_segment,
}
use audite_db.MemoryStore.{is_memory_world}
use audite_db.Etag.{strip_suffix_byte}
use audite_db.Subscription.{
  SubscriptionEventId, hex_digit, display, from_sse_id, matches_world, exact_world,
}
use audite_db.Subscription.RoundTrip.{
  PercentDecoding, IsDurable, from_sse_id-display, from_sse_id_iff,
}
use audite_db.Subscription.Patterns.{matches_world-exact}
use audite_db.Http.{parse_range, effective_range}
use audite_db.Http.Ranges.{effective_range-bounds, parse_range-interval}

abbrev unhex : ℕ → ℕ
unhex b = if ltb b b'A' then b - b'0' else b - b'A' + 10

-- A decoder of upper-case escapes.
abbrev percent_decode : Bytes → Bytes
percent_decode [] = []
percent_decode (b ∷ []) = b ∷ []
percent_decode (b ∷ h ∷ []) = b ∷ h ∷ []
percent_decode (b ∷ h ∷ l ∷ s) =
    let rest = percent_decode s in
    let other = percent_decode (h ∷ l ∷ s) in
    if b == b'%' then (16 * unhex h + unhex l) ∷ rest else b ∷ other

unhex-hex_digit : (n : ℕ) → n < 16 → unhex (hex_digit n) ≡ n
unhex-hex_digit n h = ground arith

percent_decode-plain :
    (b : ℕ) (s : Bytes) → b ≢ b'%' → percent_decode (b ∷ s) ≡ b ∷ percent_decode s
percent_decode-plain b [] h = refl
percent_decode-plain b (c ∷ []) h = refl
percent_decode-plain b (c ∷ d ∷ s) h = ground arith

percent_decode-PercentDecoding : PercentDecoding percent_decode
percent_decode-PercentDecoding = record {
  at_end = refl;
  plain = percent_decode-plain;
  escaped = λ h l s p q. rw (unhex-hex_digit h p, unhex-hex_digit l q) refl;
}

abbrev event_7 : SubscriptionEventId
event_7 = record {
  world = codes "home/a b";
  generation = codes "0123456789abcdef0123456789abcdef";
  seq = pos 7;
}

event_7-IsDurable : IsDurable event_7
unfolding decode_utf8 from_canonical is_memory_world world_generation_of is_lower_hex eq_bytes
    starts_with segments disk_world_name_len should_disk_encode is_reserved_world_name chars
    is_control is_dot_segment
event_7-IsDurable = record {
  bytes = ground arith;
  text = refl;
  canonical = refl;
  durable = refl;
  generation_hex = refl;
  number = 7;
  seq_is = refl;
  positive = omega arith;
  fits = omega arith;
}

from_sse_id-display_example : from_sse_id percent_decode (display event_7) ≡ ok event_7
from_sse_id-display_example =
    from_sse_id-display percent_decode event_7 percent_decode-PercentDecoding event_7-IsDurable

from_sse_id_iff_example :
    (from_sse_id percent_decode (display event_7) ≡ ok event_7)
    ↔ ((display event_7 ≡ display event_7) × IsDurable event_7)
from_sse_id_iff_example =
    from_sse_id_iff percent_decode (display event_7) event_7 percent_decode-PercentDecoding
      event_7-IsDurable.bytes

home_a_named : exact_world (codes "/home/a") ≡ ok (some (codes "home/a"))
unfolding exact_world from_canonical strip_suffix_byte strip_prefix eq_bytes starts_with segments
    disk_world_name_len should_disk_encode is_reserved_world_name chars is_control is_dot_segment
home_a_named = refl

matches_world-exact_example :
    (matches_world (codes "/home/a") (codes "home/b") ≡ true) ↔ (codes "home/b" ≡ codes "home/a")
matches_world-exact_example =
    matches_world-exact (codes "/home/a") (codes "home/a") (codes "home/b") home_a_named

first_bytes : effective_range none (some (codes "bytes=2-4")) 10 [] ≡ ok (some (2, 4))
unfolding effective_range strip_prefix trim parse_usize
first_bytes = refl

effective_range-bounds_example :
    (2 ≤ 4)
    × (4 < 10)
    × ((◌≡◌ {A = Option Bytes} none none)
        ⊎ ((t : Bytes) × (◌≡◌ {A = Option Bytes} none (some t))
            × (trim t ≡ b'"' ∷ [] ++ b'"' ∷ [])))
effective_range-bounds_example =
    effective_range-bounds none (some (codes "bytes=2-4")) 10 2 4 [] first_bytes

trimmed : trim (codes " bytes=2-40") ≡ codes "bytes=" ++ decimal 2 ++ b'-' ∷ decimal 40
unfolding trim decimal
trimmed = refl

parse_range-interval_example :
    parse_range (some (codes " bytes=2-40")) 10 ≡ ok (some (2, min 40 (10 - 1)))
parse_range-interval_example =
    parse_range-interval (codes " bytes=2-40") 2 40 10 trimmed (omega arith) (omega arith)
      (omega arith)
