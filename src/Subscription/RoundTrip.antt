-- ===== src/Subscription/RoundTrip.antt =====
-- Event ids are read back from their spelling, and only from it.
use audite_db.Prelude.{
  is_some, not, Option, Result, ◌↔◌, err, >>=-eq-ok, ok-injective, ok_or, map_err, require, ℕ, ◌+◌,
  ◌*◌, ◌/◌, ◌%◌, ◌≡◌, ◌<◌, ◌≤◌, ◌≢◌, refl, true, false, none, some, [], ◌∷◌, ◌++◌, ok, All,
  All-of_all, Bool-cases, inl, inr, if◌then◌else◌, arith, ◌∙◌, ap, sym, subst,
}
use audite_db.Prelude.Text.{
  Bytes, eq_bytes, eq_bytes_refl, eq_bytes_sound, is_ascii_digit, is_lower_hex_digit,
}
use audite_db.Prelude.Int.{ℤ, pos, negsuc}
use audite_db.Prelude.Decimal.{decimal, decimal-all, decimal_ℤ, decimal-ne-nil}
use audite_db.Prelude.Parse.{i64_max, parse_i64, parse_i64-bound}
use audite_db.Prelude.Utf8.{decode_utf8}
use audite_db.Timeline.{world_generation_of, timeline_seq, is_lower_hex}
use audite_db.WorldPath.{from_canonical, is_empty}
use audite_db.Audit.Headers.Subject.{seq-parsed, timeline_seq-positive}
use audite_db.WorldPath.Accepted.{IsWorldPath, from_canonical_iff}
use audite_db.MemoryStore.{is_memory_world}
use audite_db.Subscription.{
  SubscriptionEventId, hex_digit, is_plain_byte, encode_event_id_world, display, rsplit_once,
  decoded_world, is_integer, event_world, event_seq, from_sse_id,
}

-- What the percent_encoding package documents: `%` and two hexadecimal digits are the byte that they
-- spell, and every other byte stands for itself.
pub record PercentDecoding (percent_decode : Bytes → Bytes) : Type 0 where
  pub at_end : percent_decode [] ≡ []
  pub plain : (b : ℕ) (s : Bytes) → b ≢ b'%' → percent_decode (b ∷ s) ≡ b ∷ percent_decode s
  pub escaped :
      (h l : ℕ) (s : Bytes)
      → h < 16
      → l < 16
      → percent_decode (b'%' ∷ hex_digit h ∷ hex_digit l ∷ s) ≡ (16 * h + l) ∷ percent_decode s

plain_byte : (b : ℕ) → is_plain_byte b ≡ true → b ≢ b'%'
plain_byte b h = ground arith

percent_decode-encode :
    (percent_decode : Bytes → Bytes) (world : Bytes)
    → PercentDecoding percent_decode
    → All (λ b. b < 256) world
    → percent_decode (encode_event_id_world world) ≡ world
unfolding encode_event_id_world
percent_decode-encode percent_decode [] laws small = laws.at_end
percent_decode-encode percent_decode (b ∷ world) laws small =
    let rest = percent_decode-encode percent_decode world laws small.1 in
    elim (Bool-cases (is_plain_byte b)) [
      | inl kept ↦
          rw (kept, laws.plain b (encode_event_id_world world) (plain_byte b kept), rest) refl
      | inr spelt ↦
          let byte : 16 * (b / 16) + b % 16 ≡ b = omega arith in
          let code =
            laws.escaped (b / 16) (b % 16) (encode_event_id_world world) (omega (arith, small.0))
              (omega arith) in
          rw (spelt, code, rest, byte) refl
    ]

rsplit_once-none : (c : ℕ) (s : Bytes) → All (λ b. b ≢ c) s → rsplit_once c s ≡ none
unfolding rsplit_once
rsplit_once-none c [] h = refl
rsplit_once-none c (b ∷ s) h = let rest = rsplit_once-none c s h.1 in rw rest (ground arith)

rsplit_once-append :
    (c : ℕ) (l r : Bytes) → All (λ b. b ≢ c) r → rsplit_once c (l ++ c ∷ r) ≡ some (l, r)
unfolding rsplit_once
rsplit_once-append c [] r h = rw (rsplit_once-none c r h) (ground arith)
rsplit_once-append c (b ∷ l) r h = rw (rsplit_once-append c l r h) refl

digit-ne : (b : ℕ) → is_ascii_digit b ≡ true → b ≢ b'='
digit-ne b h = ground arith

hex-ne : (b : ℕ) → is_lower_hex_digit b ≡ true → b ≢ b'@'
hex-ne b h = ground arith

-- An id of a durable world, with the text of a path as its world.
pub record IsDurable (id : SubscriptionEventId) : Type 0 where
  pub bytes : All (λ b. b < 256) id.world
  pub text : is_some (decode_utf8 id.world) ≡ true
  pub canonical : from_canonical id.world ≡ ok id.world
  pub durable : is_memory_world id.world ≡ false
  pub generation_hex : world_generation_of id.generation ≡ ok id.generation
  pub number : ℕ
  pub seq_is : id.seq ≡ pos number
  pub positive : 1 ≤ number
  pub fits : number ≤ i64_max

generation-is_lower_hex : (g : Bytes) → world_generation_of g ≡ ok g → is_lower_hex g ≡ true
unfolding world_generation_of
generation-is_lower_hex g h = ground arith

text_kept :
    (s : Bytes)
    → is_some (decode_utf8 s) ≡ true
    → (if is_some (decode_utf8 s) then some s else none) ≡ some s
text_kept s h = rw h refl

decoded_world-text :
    (percent_decode : Bytes → Bytes) (raw world : Bytes)
    → percent_decode raw ≡ world
    → is_some (decode_utf8 world) ≡ true
    → decoded_world percent_decode raw ≡ some world
decoded_world-text percent_decode raw world e text =
    text_kept (percent_decode raw) (subst (λ s. is_some (decode_utf8 s) ≡ true) (sym e) text)
    ∙ ap some e

nonempty : (s : Bytes) → s ≢ [] → is_empty s ≡ false
nonempty [] h = absurd (h refl)
nonempty (c ∷ s) h = refl

is_integer-decimal : (n : ℕ) → is_integer (decimal n) ≡ true
unfolding is_integer
is_integer-decimal n = rw (decimal-all n) refl

left_of : SubscriptionEventId → Bytes
left_of id = encode_event_id_world id.world ++ b'@' ∷ id.generation

map_err-ok {ℓ κ μ} :
    {E : Type ℓ} {F : Type κ} {A : Type μ} (f : E → F) (r : Result E A) {a : A}
    → map_err f r ≡ ok a
    → r ≡ ok a
map_err-ok f (ok b) h = ap ok (ok-injective h)
map_err-ok f (err e) h = absurd (cc)

ok_or-some {ℓ κ} :
    {E : Type ℓ} {A : Type κ} (o : Option A) (e : E) {a : A} → ok_or o e ≡ ok a → o ≡ some a
ok_or-some none e h = absurd (cc)
ok_or-some (some b) e h = ap some (ok-injective h)

module _ (id : SubscriptionEventId) (d : IsDurable id) where
  seq_text : decimal_ℤ id.seq ≡ decimal d.number
  unfolding decimal_ℤ
  seq_text = ap decimal_ℤ d.seq_is

  seq_part : rsplit_once b'=' (display id) ≡ some (left_of id, decimal_ℤ id.seq)
  unfolding display left_of
  seq_part =
      let digits =
        All-of_all is_ascii_digit b'=' (decimal d.number) digit-ne (decimal-all d.number) in
      rsplit_once-append b'=' (left_of id) (decimal_ℤ id.seq) (rw seq_text digits)

  generation_part :
      rsplit_once b'@' (left_of id) ≡ some (encode_event_id_world id.world, id.generation)
  unfolding left_of is_lower_hex
  generation_part = rsplit_once-append b'@' (encode_event_id_world id.world) id.generation (
      All-of_all is_lower_hex_digit b'@' id.generation hex-ne
        (generation-is_lower_hex id.generation d.generation_hex))

  seq_integer : is_integer (decimal_ℤ id.seq) ≡ true
  seq_integer = rw seq_text (is_integer-decimal d.number)

  seq_nonempty : is_empty (decimal_ℤ id.seq) ≡ false
  seq_nonempty = rw seq_text (nonempty (decimal d.number) (decimal-ne-nil d.number))

-- A durable id is read back from its own spelling, whatever bytes its world's name has.
pub from_sse_id-display :
    (percent_decode : Bytes → Bytes) (id : SubscriptionEventId)
    → PercentDecoding percent_decode
    → IsDurable id
    → from_sse_id percent_decode (display id) ≡ ok id
unfolding from_sse_id event_world event_seq eq_bytes display
from_sse_id-display percent_decode id laws d = simp (
  seq_part id d,
  generation_part id d,
  decoded_world-text percent_decode (encode_event_id_world id.world) id.world
      (percent_decode-encode percent_decode id.world laws d.bytes) d.text,
  d.canonical,
  d.durable,
  d.generation_hex,
  seq_nonempty id d,
  seq_integer id d,
  seq-parsed id.seq d.number d.seq_is d.fits,
  timeline_seq-positive id.seq d.number d.seq_is d.positive,
  eq_bytes_refl (display id),
)

decoded_world-is_text :
    (percent_decode : Bytes → Bytes) (raw world : Bytes)
    → decoded_world percent_decode raw ≡ some world
    → is_some (decode_utf8 world) ≡ true
decoded_world-is_text percent_decode raw world h =
    elim (Bool-cases (is_some (decode_utf8 (percent_decode raw)))) [
      | inl text ↦
          let same : percent_decode raw ≡ world = ground arith in
          subst (λ s. is_some (decode_utf8 s) ≡ true) same text
      | inr other ↦ absurd (ground arith)
    ]

world_generation_of_idem :
    (raw g : Bytes) → world_generation_of raw ≡ ok g → world_generation_of g ≡ ok g
unfolding world_generation_of
world_generation_of_idem raw g h = ground arith

timeline_seq-Positive :
    (raw seq : ℤ) → timeline_seq raw ≡ ok seq → (n : ℕ) × (raw ≡ pos n) × (seq ≡ pos n) × (1 ≤ n)
unfolding timeline_seq
timeline_seq-Positive (pos n) seq h = (n, refl, ground arith, ground arith)
timeline_seq-Positive (negsuc n) seq h = absurd (ground arith)

-- The world that has been read.
record ReadWorld (world : Bytes) : Type 0 where
  text : is_some (decode_utf8 world) ≡ true
  canonical : from_canonical world ≡ ok world
  durable : is_memory_world world ≡ false

event_world-ReadWorld :
    (percent_decode : Bytes → Bytes) (raw world : Bytes)
    → event_world percent_decode raw ≡ ok world
    → ReadWorld world
unfolding event_world
event_world-ReadWorld percent_decode raw world h =
    let (decoded, h1, h2) = >>=-eq-ok (ok_or (decoded_world percent_decode raw) _) _ h in
    let (found, h3, h4) = >>=-eq-ok (map_err _ (from_canonical decoded)) _ h2 in
    let (u, h5, h6) = >>=-eq-ok (require (not (is_memory_world found)) _) _ h4 in
    let (is_decoded, path) = (from_canonical_iff decoded found).0 (map_err-ok _ _ h3) in
    let named : decoded ≡ world = sym is_decoded ∙ ok-injective h6 in
    record {
      text =
          subst (λ s. is_some (decode_utf8 s) ≡ true) named
            (decoded_world-is_text percent_decode raw decoded (ok_or-some _ _ h1));
      canonical = (from_canonical_iff world world).1 (refl, subst IsWorldPath named path);
      durable = subst (λ s. is_memory_world s ≡ false) (ok-injective h6) (ground arith);
    }

event_seq-Positive :
    (raw : Bytes) (seq : ℤ)
    → event_seq raw ≡ ok seq
    → (n : ℕ) × (seq ≡ pos n) × (1 ≤ n) × (n ≤ i64_max)
unfolding event_seq
event_seq-Positive raw seq h =
    let (u, h1, h2) = >>=-eq-ok (require (not (is_empty raw)) _) _ h in
    let (v, h3, h4) = >>=-eq-ok (require (is_integer raw) _) _ h2 in
    let (number, h5, h6) = >>=-eq-ok (map_err _ (parse_i64 raw)) _ h4 in
    let (n, is_number, is_seq, positive) = timeline_seq-Positive number seq (map_err-ok _ _ h6) in
    (n, is_seq, positive, parse_i64-bound raw n (map_err-ok _ _ h5 ∙ ap ok is_number))

from_sse_id-reads :
    (percent_decode : Bytes → Bytes) (raw : Bytes) (id : SubscriptionEventId)
    → All (λ b. b < 256) id.world
    → from_sse_id percent_decode raw ≡ ok id
    → (raw ≡ display id) × IsDurable id
unfolding from_sse_id
from_sse_id-reads percent_decode raw id bytes h =
    let (ends, h1, h2) = >>=-eq-ok (ok_or (rsplit_once b'=' raw) _) _ h in
    let (parts, h3, h4) = >>=-eq-ok (ok_or (rsplit_once b'@' ends.0) _) _ h2 in
    let (world, h5, h6) = >>=-eq-ok (event_world percent_decode parts.0) _ h4 in
    let (generation, h7, h8) = >>=-eq-ok (map_err _ (world_generation_of parts.1)) _ h6 in
    let (seq, h9, h10) = >>=-eq-ok (event_seq ends.1) _ h8 in
    let read : SubscriptionEventId = record { world = world; generation = generation; seq = seq } in
    let (x, h11, h12) = >>=-eq-ok (require (eq_bytes raw (display read)) _) _ h10 in
    let same : read ≡ id = ok-injective h12 in
    let spelt : eq_bytes raw (display read) ≡ true = ground arith in
    let found =
      subst ReadWorld (ap (λ i. i.world) same)
        (event_world-ReadWorld percent_decode parts.0 world h5) in
    let (n, is_seq, positive, fits) = event_seq-Positive ends.1 seq h9 in
    (
      eq_bytes_sound raw (display read) spelt ∙ ap display same,
      record {
        bytes = bytes;
        text = found.text;
        canonical = found.canonical;
        durable = found.durable;
        generation_hex =
            subst (λ g. world_generation_of g ≡ ok g) (ap (λ i. i.generation) same)
              (world_generation_of_idem parts.1 generation (map_err-ok _ _ h7));
        number = n;
        seq_is = sym (ap (λ i. i.seq) same) ∙ is_seq;
        positive = positive;
        fits = fits;
      },
    )

-- A text is read as an id exactly if it is the id's own spelling and the id is durable: its world is
-- the text of a world path that is not in memory, its generation is one, and its number is positive
-- and an `i64`. So an id has one spelling. The decoder does what its package documents, and the
-- world of the id is a list of bytes.
pub from_sse_id_iff :
    (percent_decode : Bytes → Bytes) (raw : Bytes) (id : SubscriptionEventId)
    → PercentDecoding percent_decode
    → All (λ b. b < 256) id.world
    → (from_sse_id percent_decode raw ≡ ok id) ↔ ((raw ≡ display id) × IsDurable id)
from_sse_id_iff percent_decode raw id laws bytes = (
  from_sse_id-reads percent_decode raw id bytes,
  λ h. ap (from_sse_id percent_decode) h.0 ∙ from_sse_id-display percent_decode id laws h.1,
)
