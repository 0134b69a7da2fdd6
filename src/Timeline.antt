-- ===== src/Timeline.antt =====
-- The coordinates of core/src/timeline.rs and core/src/world_generation.rs, and the hashes that the
-- sha2, hmac and hex packages compute, as a parameter.
use audite_db.Prelude.{ℕ, Bool, not, Result, ok, err, length, all, ◌==◌, if◌then◌else◌}
use audite_db.Prelude.Text.{Bytes, is_lower_hex_digit}
use audite_db.Prelude.Int.{ℤ, pos, ltb_ℤ}

-- `hex::encode` of the SHA-256 of a message and of its HMAC under a key, the updates of a message
-- run together.
pub record Crypto : Type 0 where
  pub sha256_hex : Bytes → Bytes
  pub hmac_sha256_hex : Bytes → Bytes → Bytes

unfoldable pub is_lower_hex : Bytes → Bool
is_lower_hex s = all is_lower_hex_digit s

-- `InvalidBodySha256` and `InvalidWorldGeneration`, which have the same two variants
pub data InvalidHex : Type 0 where
  wrong_length not_lower_hex : InvalidHex

abbrev hex_of_length : ℕ → Bytes → Result InvalidHex Bytes
hex_of_length n raw =
    if not (length raw == n)
    then err wrong_length
    else if not (is_lower_hex raw)
    then err not_lower_hex
    else ok raw

-- `BodySha256::new`
unfoldable pub body_sha256_of : Bytes → Result InvalidHex Bytes
body_sha256_of raw = hex_of_length 64 raw

-- `WorldGeneration::new`
unfoldable pub world_generation_of : Bytes → Result InvalidHex Bytes
world_generation_of raw = hex_of_length 32 raw

pub data InvalidTimelineSeq : Type 0 where
  non_positive : InvalidTimelineSeq

-- `TimelineSeq::new`
unfoldable pub timeline_seq : ℤ → Result InvalidTimelineSeq ℤ
timeline_seq raw = if ltb_ℤ (pos 0) raw then ok raw else err non_positive

-- `BodySha256::for_body`
abbrev pub body_sha256_for : Crypto → Bytes → Bytes
body_sha256_for c body = c.sha256_hex body
