-- ===== src/Audit/Frame/Injective.antt =====
-- The messages of core/src/audit.rs that are hashed and signed, read back.
use audite_db.Prelude.{
  ◌≡◌, refl, sym, ap, ◌∙◌, ◌≤◌, map, List, [], ◌∷◌, ◌++◌, append_assoc, length, All, append-cancel,
  append-cancel_left, arith,
}
use audite_db.Prelude.Text.{Bytes, codes}
use audite_db.Prelude.Decimal.{decimal, decimal-injective, decimal_ℤ-injective, decimal-digit}
use audite_db.Audit.Events.{Header}
use audite_db.Audit.Frame.{
  field, header_fields, meta_message, EventHmacInput, event_fields, fields, event_message,
}

-- The first zero ends a row of digits.
digits_end :
    (a b x y : Bytes)
    → All (λ c. b'0' ≤ c) a
    → All (λ c. b'0' ≤ c) b
    → a ++ 0 ∷ x ≡ b ++ 0 ∷ y
    → (a ≡ b) × (x ≡ y)
digits_end [] [] x y p q e = (refl, cc)
digits_end [] (d ∷ b) x y p q e = let z : 0 ≡ d = cc in absurd (omega (arith, z, q.0))
digits_end (c ∷ a) [] x y p q e = let z : c ≡ 0 = cc in absurd (omega (arith, z, p.0))
digits_end (c ∷ a) (d ∷ b) x y p q e =
    let rest = digits_end a b x y p.1 q.1 (cc) in (cc (rest.0), rest.1)

tail : Bytes → Bytes
tail [] = []
tail (c ∷ s) = s

reassoc :
    (label v s : Bytes)
    → field label v ++ s ≡ label ++ (0 ∷ (decimal (length v) ++ (0 ∷ (v ++ 0 ∷ s))))
unfolding field
reassoc label v s = simp (append_assoc)

pub field-injective :
    (label v w s t : Bytes) → field label v ++ s ≡ field label w ++ t → (v ≡ w) × (s ≡ t)
unfolding tail
field-injective label v w s t e =
    let e1 = sym (reassoc label v s) ∙ e ∙ reassoc label w t in
    let e2 : decimal (length v) ++ (0 ∷ (v ++ 0 ∷ s)) ≡ decimal (length w) ++ (0 ∷ (w ++ 0 ∷ t)) =
      ap tail (
        append-cancel_left label (0 ∷ (decimal (length v) ++ (0 ∷ (v ++ 0 ∷ s))))
          (0 ∷ (decimal (length w) ++ (0 ∷ (w ++ 0 ∷ t)))) e1) in
    let (e3, e4) =
      digits_end (decimal (length v)) (decimal (length w)) (v ++ 0 ∷ s) (w ++ 0 ∷ t)
        (decimal-digit (length v)) (decimal-digit (length w)) e2 in
    let (e5, e6) = append-cancel v w (0 ∷ s) (0 ∷ t) (decimal-injective _ _ e3) e4 in (e5, cc)

header_fields-injective : (hs ks : List Header) → header_fields hs ≡ header_fields ks → hs ≡ ks
unfolding header_fields field
header_fields-injective [] [] e = refl
header_fields-injective [] ((m, w) ∷ ks) e = absurd (cc)
header_fields-injective ((n, v) ∷ hs) [] e = absurd (cc)
header_fields-injective ((n, v) ∷ hs) ((m, w) ∷ ks) e =
    let (e1, e2) = field-injective (codes "header-name") n m _ _ e in
    let (e3, e4) = field-injective (codes "header-value") v w _ _ e2 in
    cc (e1, e3, header_fields-injective hs ks e4)

-- The header digest's message determines the content type and every header, in order.
pub meta_message-injective :
    (content_type other : Bytes) (hs ks : List Header)
    → meta_message content_type hs ≡ meta_message other ks
    → (content_type ≡ other) × (hs ≡ ks)
unfolding meta_message
meta_message-injective content_type other hs ks e =
    let (e1, e2) = field-injective (codes "content-type") content_type other _ _ e in
    (e1, header_fields-injective hs ks e2)

fields-injective :
    (l m : List (Bytes × Bytes)) → map (λ f. f.0) l ≡ map (λ f. f.0) m → fields l ≡ fields m → l ≡ m
unfolding fields
fields-injective [] [] h e = refl
fields-injective [] (f ∷ m) h e = absurd (cc)
fields-injective (f ∷ l) [] h e = absurd (cc)
fields-injective ((a, v) ∷ l) ((b, w) ∷ m) h e =
    let same : a ≡ b = cc in
    let (e1, e2) = field-injective a v w (fields l) (fields m) (cc) in
    cc (same, e1, fields-injective l m (cc) e2)

-- The message that an event signs determines each of its ten fields.
pub event_message-injective : (i j : EventHmacInput) → event_message i ≡ event_message j → i ≡ j
unfolding event_message
event_message-injective i j e =
    let same = fields-injective (event_fields i) (event_fields j) refl e in
    cc (decimal_ℤ-injective i.size j.size (cc))
