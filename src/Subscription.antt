-- ===== src/Subscription.antt =====
-- core/src/subscription_event_id.rs, and the patterns of core/src/subscription_cursor.rs and
-- core/src/event.rs: the durable id of an event, and which worlds a subscription is about.
pub mod RoundTrip
pub mod Patterns
use audite_db.Prelude.{
  is_some, ℕ, ◌+◌, ◌-◌, ◌/◌, ◌%◌, ◌≡◌, ◌<◌, Bool, true, false, not, ◌&&◌, ◌||◌, Option, none, some,
  List, [], ◌∷◌, ◌++◌, Result, ok, err, require, map_err, ok_or, ◌>>=◌, ◌>>◌, all, leb, ltb, ◌==◌,
  if◌then◌else◌,
}
use audite_db.Prelude.Text.{Bytes, codes, eq_bytes, starts_with, strip_prefix, is_ascii_digit}
use audite_db.Prelude.Int.{ℤ}
use audite_db.Prelude.Decimal.{decimal_ℤ}
use audite_db.Prelude.Parse.{parse_i64}
use audite_db.Prelude.Utf8.{decode_utf8, trim}
use audite_db.Timeline.{InvalidHex, wrong_length, not_lower_hex, world_generation_of, timeline_seq}
use audite_db.WorldPath.{PathError, from_canonical, is_empty}
use audite_db.MemoryStore.{is_memory_world}
use audite_db.Etag.{strip_suffix_byte}

pub record SubscriptionEventId : Type 0 where
  pub world : Bytes
  pub generation : Bytes
  pub seq : ℤ

pub data InvalidSubscriptionEventId : Type 0 where
  missing_seq_delimiter missing_generation_delimiter : InvalidSubscriptionEventId
  invalid_world_utf8 memory_world : InvalidSubscriptionEventId
  world_path : PathError → InvalidSubscriptionEventId
  generation_wrong_length generation_not_lower_hex : InvalidSubscriptionEventId
  seq_not_integer seq_out_of_range seq_non_positive non_canonical : InvalidSubscriptionEventId

-- `HEX[…]`, for a half of a byte
abbrev pub hex_digit : ℕ → ℕ
hex_digit n = if ltb n 10 then b'0' + n else b'A' + (n - 10)

abbrev pub is_plain_byte : ℕ → Bool
is_plain_byte b =
    is_ascii_digit b
    || (leb b'A' b && leb b b'Z')
    || (leb b'a' b && leb b b'z')
    || b == b'/'
    || b == b'_'
    || b == b'.'
    || b == b'~'
    || b == b'-'

unfoldable pub encode_event_id_world : Bytes → Bytes
encode_event_id_world [] = []
encode_event_id_world (b ∷ world) =
    let rest = encode_event_id_world world in
    if is_plain_byte b then b ∷ rest else b'%' ∷ hex_digit (b / 16) ∷ hex_digit (b % 16) ∷ rest

-- `Display` of an event id
unfoldable pub display : SubscriptionEventId → Bytes
display id = encode_event_id_world id.world ++ b'@' ∷ id.generation ++ b'=' ∷ decimal_ℤ id.seq

-- `s.rsplit_once(c)`
unfoldable pub rsplit_once : ℕ → Bytes → Option (Bytes × Bytes)
rsplit_once c [] = none
rsplit_once c (b ∷ s) = elim (rsplit_once c s) [
  | some p ↦ some (b ∷ p.0, p.1)
  | none ↦ if b == c then some ([], s) else none
]

-- `percent_decode_str(raw).decode_utf8()`, over the bytes that the percent_encoding package decodes
abbrev pub decoded_world : (Bytes → Bytes) → Bytes → Option Bytes
decoded_world percent_decode raw =
    if is_some (decode_utf8 (percent_decode raw)) then some (percent_decode raw) else none

abbrev pub generation_error : InvalidHex → InvalidSubscriptionEventId
generation_error wrong_length = generation_wrong_length
generation_error not_lower_hex = generation_not_lower_hex

-- Digits, or a minus sign and digits.
unfoldable pub is_integer : Bytes → Bool
is_integer seq = all is_ascii_digit seq || (elim (strip_prefix (b'-' ∷ []) seq) [
  | none ↦ false
  | some rest ↦ not (is_empty rest) && all is_ascii_digit rest
])

-- The world of `from_sse_id`
unfoldable pub event_world : (Bytes → Bytes) → Bytes → Result InvalidSubscriptionEventId Bytes
event_world percent_decode raw = do
  decoded ← ok_or (decoded_world percent_decode raw) invalid_world_utf8
  world ← map_err world_path (from_canonical decoded)
  require (not (is_memory_world world)) memory_world
  ok world

-- The number of `from_sse_id`
unfoldable pub event_seq : Bytes → Result InvalidSubscriptionEventId ℤ
event_seq raw = do
  require (not (is_empty raw)) seq_not_integer
  require (is_integer raw) seq_not_integer
  number ← map_err (λ e. seq_out_of_range) (parse_i64 raw)
  map_err (λ e. seq_non_positive) (timeline_seq number)

unfoldable pub from_sse_id :
    (Bytes → Bytes) → Bytes → Result InvalidSubscriptionEventId SubscriptionEventId
unfolding event_world event_seq
from_sse_id percent_decode raw = do
  ends ← ok_or (rsplit_once b'=' raw) missing_seq_delimiter
  parts ← ok_or (rsplit_once b'@' ends.0) missing_generation_delimiter
  world ← event_world percent_decode parts.0
  generation ← map_err generation_error (world_generation_of parts.1)
  seq ← event_seq ends.1
  require (eq_bytes raw (display (record { world = world; generation = generation; seq = seq })))
      non_canonical
  ok (record { world = world; generation = generation; seq = seq })

-- `pattern`, which `SubscribePattern::new` keeps
unfoldable pub pattern : Bytes → Bytes
pattern raw =
    let p = trim raw in
    if eq_bytes p (codes "*") || eq_bytes p (codes "/*") || eq_bytes p (codes "/") || is_empty p
    then codes "*"
    else if starts_with (codes "/") p
    then p
    else b'/' ∷ p

-- `s.strip_prefix('/').unwrap_or(s)`
abbrev pub without_slash : Bytes → Bytes
without_slash s = elim (strip_prefix (b'/' ∷ []) s) [ none ↦ s | some rest ↦ rest ]

unfoldable pub matches_world : Bytes → Bytes → Bool
matches_world pattern path =
    if eq_bytes pattern (codes "*") then true else elim (strip_suffix_byte b'*' pattern) [
      | some prefix ↦ starts_with (without_slash prefix) path
      | none ↦ eq_bytes path (without_slash pattern)
    ]

-- `exact_world`; `ends_with` is that there is a suffix to strip
unfoldable pub exact_world : Bytes → Result PathError (Option Bytes)
exact_world pattern =
    if eq_bytes pattern (codes "*") then ok none else elim (strip_suffix_byte b'*' pattern) [
      | some prefix ↦ ok none
      | none ↦ do world ← from_canonical (without_slash pattern); ok (some world)
    ]
