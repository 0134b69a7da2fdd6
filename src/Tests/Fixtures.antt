-- ===== src/Tests/Fixtures.antt =====
-- A stand-in for the hashes, and a small world with one event.
use audite_db.Prelude.{
  ℕ, zero, suc, ◌+◌, ◌%◌, ◌≡◌, refl, none, some, [], ◌∷◌, ◌++◌, true, ap, length, all, arith,
}
use audite_db.Prelude.Text.{Bytes, codes, is_lower_hex_digit}
use audite_db.Audit.Headers.{is_lower_hex_len}
use audite_db.Prelude.Int.{pos}
use audite_db.Timeline.{Crypto}
use audite_db.Audit.Events.{put, EventRow}
use audite_db.Audit.Frame.{canonical_headers, hmac_label}
use audite_db.Audit.Retention.{WorldDb, tail_unchecked}
use audite_db.Audit.Bodies.{VerifyAccumulator}
use audite_db.Audit.Verify.{Chain, advance}
use audite_db.Audit.Walk.{initial, ChainStamp}
use audite_db.Audit.Access.{Place}
use audite_db.Audit.Append.{NewEvent, AppendedAuditRow, signed_row, insert_event, format_event}

abbrev sum : Bytes → ℕ
sum [] = 0
sum (b ∷ s) = b + sum s

abbrev repeat : ℕ → ℕ → Bytes
repeat zero b = []
repeat (suc n) b = b ∷ repeat n b

-- 64 times the last digit of the sum of the bytes.
abbrev pub checksum : Bytes → Bytes
checksum s = repeat 64 (b'0' + sum s % 10)

abbrev pub toy : Crypto
toy = record { sha256_hex = checksum; hmac_sha256_hex = λ key s. checksum (key ++ s) }

length-repeat : (n b : ℕ) → length (repeat n b) ≡ n
length-repeat zero b = refl
length-repeat (suc n) b = ap suc (length-repeat n b)

all-repeat : (n b : ℕ) → is_lower_hex_digit b ≡ true → all is_lower_hex_digit (repeat n b) ≡ true
all-repeat zero b h = refl
all-repeat (suc n) b h = rw (h) (all-repeat n b h)

repeat-hex : (n b : ℕ) → is_lower_hex_digit b ≡ true → is_lower_hex_len (repeat n b) n ≡ true
unfolding is_lower_hex_len
repeat-hex n b h = ground (arith, length-repeat n b, all-repeat n b h)

pub checksum-hex : (s : Bytes) → is_lower_hex_len (checksum s) 64 ≡ true
checksum-hex s = repeat-hex 64 (b'0' + sum s % 10) (ground arith)

abbrev pub generation_0 : Bytes
generation_0 = repeat 32 b'0'

abbrev pub chain_a : Chain
chain_a = record { key = codes "key"; world = codes "home/a"; generation = generation_0 }

abbrev pub db_0 : WorldDb
db_0 = record {
  generation = generation_0;
  events = [];
  event_headers = [];
  last_rowid = 0;
  first_retained = none;
  cas_bodies = [];
  stage_body = none;
}

abbrev pub noon : Bytes
noon = codes "2026-01-02T12:00:00.000Z"

abbrev pub put_event : NewEvent
put_event = record {
  kind = put;
  target = codes "home/a";
  body_sha256 = checksum (codes "hi");
  size = pos 2;
  content_type = codes "text/plain";
  headers = (codes "X-B", codes "2") ∷ (codes "x-a", codes "1") ∷ [];
}

abbrev pub row_1 : EventRow
row_1 = signed_row toy chain_a noon [] (pos 1) put_event

abbrev pub db_1 : WorldDb
db_1 = insert_event db_0 row_1 (canonical_headers put_event.headers)

abbrev pub appended_1 : AppendedAuditRow
appended_1 = record {
  world = codes "home/a";
  id = pos 1;
  hmac = row_1.hmac;
  generation = generation_0;
  event = put_event;
}

abbrev pub start : VerifyAccumulator
start = initial [] 0 tail_unchecked none

abbrev pub after_1 : VerifyAccumulator
after_1 = advance generation_0 row_1 start

-- A world whose chain is its format event.
abbrev pub place_a : Place
place_a = record { key = codes "key"; world = codes "home/a" }

abbrev pub format_a : NewEvent
format_a = format_event toy (codes "home/a")

abbrev pub row_f : EventRow
row_f = signed_row toy chain_a noon [] (pos 1) format_a

abbrev pub db_f : WorldDb
db_f = insert_event db_0 row_f (canonical_headers format_a.headers)

abbrev pub appended_f : AppendedAuditRow
appended_f = record {
  world = codes "home/a";
  id = pos 1;
  hmac = row_f.hmac;
  generation = generation_0;
  event = format_a;
}

abbrev pub after_f : VerifyAccumulator
after_f = advance generation_0 row_f start

abbrev pub head_f : ChainStamp
head_f = record { generation = generation_0; seq = pos 1; hmac = hmac_label row_f.hmac }

-- The walk that is to capture the first stamp.
abbrev pub start_c : VerifyAccumulator
start_c = initial [] 0 tail_unchecked (some (pos 1))

abbrev pub after_c : VerifyAccumulator
after_c = advance generation_0 row_f start_c
