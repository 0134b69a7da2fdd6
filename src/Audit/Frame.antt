-- ===== src/Audit/Frame.antt =====
-- What core/src/audit.rs signs: length-prefixed fields, the header digest and the event HMAC.
pub mod Injective
pub mod Sorting
use audite_db.Prelude.{
  ℕ, ◌≡◌, refl, Bool, true, false, ◌&&◌, ◌||◌, Option, none, some, List, [], ◌∷◌, ◌++◌, map, length,
  get_elem?, all, ◌==◌, if◌then◌else◌, ◌+◌,
}
use audite_db.Prelude.Text.{
  Bytes, codes, starts_with, is_ascii_digit, to_ascii_lowercase, leb_bytes, eq_bytes,
}
use audite_db.Prelude.Int.{ℤ}
use audite_db.Prelude.Decimal.{decimal, decimal_ℤ}
use audite_db.Timeline.{Crypto}
use audite_db.Audit.Events.{Header}

-- `hmac_field` and `sha256_field`: the bytes that a field adds to the message
unfoldable pub field : Bytes → Bytes → Bytes
field label value = label ++ 0 ∷ decimal (length value) ++ 0 ∷ value ++ 0 ∷ []

-- The loop of `meta_sha256_canonical` over the headers.
unfoldable pub header_fields : List Header → Bytes
header_fields [] = []
header_fields ((name, value) ∷ headers) =
    field (codes "header-name") name
    ++ (field (codes "header-value") value ++ header_fields headers)

unfoldable pub meta_message : Bytes → List Header → Bytes
meta_message content_type headers =
    field (codes "content-type") content_type ++ header_fields headers

unfoldable pub meta_sha256_canonical : Crypto → Bytes → List Header → Bytes
meta_sha256_canonical c content_type headers = c.sha256_hex (meta_message content_type headers)

pub record EventHmacInput : Type 0 where
  pub prev : Bytes
  pub world : Bytes
  pub timestamp : Bytes
  pub event_type : Bytes
  pub target : Bytes
  pub generation : Bytes
  pub body_sha256 : Bytes
  pub size : ℤ
  pub content_type : Bytes
  pub meta_sha256 : Bytes

-- The calls of `hmac_field`, in order: each label with its value.
abbrev pub event_fields : EventHmacInput → List (Bytes × Bytes)
event_fields i =
    (codes "prev", i.prev)
    ∷ (codes "world", i.world)
    ∷ (codes "timestamp", i.timestamp)
    ∷ (codes "type", i.event_type)
    ∷ (codes "target", i.target)
    ∷ (codes "gen", i.generation)
    ∷ (codes "body-sha256", i.body_sha256)
    ∷ (codes "size", decimal_ℤ i.size)
    ∷ (codes "content-type", i.content_type)
    ∷ (codes "meta-sha256", i.meta_sha256)
    ∷ []

unfoldable pub fields : List (Bytes × Bytes) → Bytes
fields [] = []
fields ((label, value) ∷ l) = field label value ++ fields l

unfoldable pub event_message : EventHmacInput → Bytes
unfolding fields
event_message i = fields (event_fields i)

unfoldable pub event_hmac : Crypto → Bytes → EventHmacInput → Bytes
event_hmac c key input = c.hmac_sha256_hex key (event_message input)

unfoldable pub hmac_label : Bytes → Bytes
hmac_label [] = codes "hmac-"
hmac_label (b ∷ raw) =
    if starts_with (codes "hmac-") (b ∷ raw) then b ∷ raw else codes "hmac-" ++ b ∷ raw

-- The places of a timestamp that are not digits, with what stands there.
abbrev byte_is : ℕ → Bytes → ℕ → Bool
byte_is i s b = elim (get_elem? s i) [ none ↦ false | some c ↦ c == b ]

abbrev is_separator_place : ℕ → Bool
is_separator_place i = i == 4 || i == 7 || i == 10 || i == 13 || i == 16 || i == 19 || i == 23

-- `bytes.iter().enumerate().all(…)`, from place `i` on
digits_from : ℕ → Bytes → Bool
digits_from i [] = true
digits_from i (b ∷ s) = (is_separator_place i || is_ascii_digit b) && digits_from (1 + i) s

unfoldable pub is_canonical_sqlite_utc_timestamp : Bytes → Bool
unfolding digits_from
is_canonical_sqlite_utc_timestamp s =
    length s == 24
    && byte_is 4 s b'-'
    && byte_is 7 s b'-'
    && byte_is 10 s b'T'
    && byte_is 13 s b':'
    && byte_is 16 s b':'
    && byte_is 19 s b'.'
    && byte_is 23 s b'Z'
    && digits_from 0 s

-- The order of `(String, String)`: by name, then by value.
unfoldable pub leb_header : Header → Header → Bool
leb_header (n, v) (m, w) = if eq_bytes n m then leb_bytes v w else leb_bytes n m

unfoldable pub insert_header : Header → List Header → List Header
insert_header h [] = h ∷ []
insert_header h (k ∷ hs) =
    let rest = insert_header h hs in if leb_header h k then h ∷ k ∷ hs else k ∷ rest

-- The standard library's `sort`, and `ORDER BY h.name ASC, h.value ASC`.
unfoldable pub sort_headers : List Header → List Header
sort_headers [] = []
sort_headers (h ∷ hs) = insert_header h (sort_headers hs)

unfoldable pub canonical_headers : List Header → List Header
canonical_headers headers = sort_headers (map (λ h. (to_ascii_lowercase h.0, h.1)) headers)
