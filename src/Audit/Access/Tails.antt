-- ===== src/Audit/Access/Tails.antt =====
-- `require_current_tail_intact_tx` of core/src/audit.rs, the check of the last event alone, against
-- the full verification.
use audite_db.Prelude.{
  ℕ, suc, ◌-◌, ◌≡◌, refl, sym, ap, ◌∙◌, subst, true, false, Option, none, some, Option-cases, inl,
  inr, List, [], ◌∷◌, ◌++◌, map, append_assoc, Result, ok, err, ◌>>=◌, >>=-eq-ok, arith, length,
  length-append, if◌then◌else◌,
}
use audite_db.Prelude.Text.{Bytes}
use audite_db.Prelude.Int.{ℤ, ltb_ℤ, eq_ℤ_iff}
use audite_db.Timeline.{Crypto}
use audite_db.Audit.Events.{EventRow, Header, Entry, AuditEventKind, VerifyBreak}
use audite_db.Audit.Retention.{WorldDb, CasRetentionState, tail_unchecked}
use audite_db.Audit.Bodies.{VerifyAccumulator, verify_retained_body}
use audite_db.Audit.Verify.{Chain, verify_event, verify_delete_subject_proof, advance}
use audite_db.Audit.Verify.Sound.{Signed, Accepts, verify_event-Accepted, Accepts-verify_signed}
use audite_db.Audit.Walk.{joined, entries, sorted_headers, verify_all, initial}
use audite_db.Audit.Walk.Grouping.{Ascending}
use audite_db.Audit.Walk.Breaks.{verify_all-events}
use audite_db.Audit.Append.RoundTrip.{verify_all-append, verify_all-prev, last_hmac}
use audite_db.Audit.Access.{
  last_entry, collect_tail, latest_event_with_headers, previous_hmac, verify_tail_event,
}
use audite_db.Audit.Access.Reports.{length-entries}
use audite_db.Audit.Append.Entries.{map-append_one}

collect-same :
    (row : EventRow) (ks hs : List Header)
    → collect_tail (map (λ k. (row, some k)) ks) (some row) hs ≡ ok (some (row, hs ++ ks))
unfolding collect_tail
collect-same row [] hs = ap (λ l. ok (some (row, l))) (sym (mathlib.Core.List.append-nil hs))
collect-same row (k ∷ ks) hs = rw ((eq_ℤ_iff row.id row.id).1 refl) (
    collect-same row ks (hs ++ k ∷ []) ∙ ap (λ l. ok (some (row, l))) (append_assoc hs (k ∷ []) ks))

collect-joined : (e : Entry) → collect_tail (joined e) none [] ≡ ok (some e)
unfolding collect_tail joined
collect-joined (row, []) = refl
collect-joined (row, h ∷ hs) = collect-same row hs (h ∷ [])

last_entry-entries :
    (db : WorldDb) (rows : List EventRow)
    → last_entry {A = Entry} (map (λ row. (row, sorted_headers db row)) rows)
      ≡ (elim (last_entry rows) [ none ↦ none | some row ↦ some (row, sorted_headers db row) ])
last_entry-entries db [] = refl
last_entry-entries db (row ∷ rows) = ground (arith, last_entry-entries db rows)

-- The loop over the joined rows of the last event reads that event with all its headers, in order.
latest_event_with_headers-last :
    (db : WorldDb) → latest_event_with_headers db ≡ ok (last_entry (entries db))
unfolding latest_event_with_headers collect_tail
latest_event_with_headers-last db = go (last_entry (entries db))
  where
    go : (o : Option Entry) → collect_tail (elim o [ none ↦ [] | some e ↦ joined e ]) none [] ≡ ok o
    go none = unfold collect_tail in refl
    go (some e) = collect-joined e

last-none {ℓ} : {A : Type ℓ} (xs : List A) → last_entry xs ≡ none → xs ≡ []
last-none [] e = refl
last-none (x ∷ xs) e = ground arith

last-split {ℓ} :
    {A : Type ℓ} (xs : List A) (y : A)
    → last_entry xs ≡ some y
    → (pre : List A) × (xs ≡ pre ++ y ∷ [])
last-split [] y e = absurd (cc)
last-split (x ∷ xs) y e = elim (Option-cases (last_entry xs)) [
  | inl gone ↦ ([], cc (last-none xs gone, e))
  | inr (z, h) ↦ let (pre, parts) = last-split xs y (cc (h, e)) in (x ∷ pre, ap (λ l. x ∷ l) parts)
]

ltb_ℤ-trans : (a b c : ℤ) → ltb_ℤ a b ≡ true → ltb_ℤ b c ≡ true → ltb_ℤ a c ≡ true
ltb_ℤ-trans a b c h k = ground arith

ltb_ℤ-irrefl : (a : ℤ) → ltb_ℤ a a ≡ false
ltb_ℤ-irrefl a = ground arith

Ascending-last :
    (x : EventRow) (pre : List EventRow) (row : EventRow)
    → Ascending (x ∷ (pre ++ row ∷ []))
    → ltb_ℤ x.id row.id ≡ true
Ascending-last x [] row up = up.0
Ascending-last x (y ∷ pre) row up =
    ltb_ℤ-trans x.id y.id row.id up.0 (Ascending-last y pre row up.1)

Ascending-tail : (x : EventRow) (rows : List EventRow) → Ascending (x ∷ rows) → Ascending rows
Ascending-tail x [] up = tt
Ascending-tail x (y ∷ rows) up = up.1

previous_hmac-last :
    (pre : List EventRow) (row : EventRow) (before : Bytes)
    → Ascending (pre ++ row ∷ [])
    → previous_hmac (pre ++ row ∷ []) row.id before ≡ last_hmac pre before
unfolding previous_hmac last_hmac
previous_hmac-last [] row before up = simp (ltb_ℤ-irrefl row.id)
previous_hmac-last (x ∷ pre) row before up =
    ap (λ b. previous_hmac (pre ++ row ∷ []) row.id (if b then x.hmac else before))
      (Ascending-last x pre row up)
    ∙ previous_hmac-last pre row x.hmac (Ascending-tail x _ up)

-- The tests of `verify_signed` look at nothing of the state but the tag before and the count.
Accepts-moved :
    (c : Crypto) (chain : Chain) (row : EventRow) (headers : List Header)
    (st st' : VerifyAccumulator) (kind : AuditEventKind)
    → st'.prev ≡ st.prev
    → st'.events ≡ st.events
    → Accepts c chain row headers st kind
    → Accepts c chain row headers st' kind
Accepts-moved c chain row headers st st' kind p n a = record {
  known = a.known;
  bound = a.bound;
  signed = subst (λ x. Signed c chain x row headers) (sym p) a.signed;
  version = a.version;
  subject = subst (λ m. verify_delete_subject_proof row headers kind m ≡ ok tt) (sym n) a.subject;
  time = a.time;
}

verify_event-unfloored :
    (c : Crypto) (chain : Chain) (row : EventRow) (headers : List Header) (st : VerifyAccumulator)
    (kind : AuditEventKind)
    → Accepts c chain row headers st kind
    → verify_event c chain tail_unchecked row headers st ≡ ok (advance chain.generation row st)
unfolding verify_event verify_retained_body
verify_event-unfloored c chain row headers st kind a =
    ap
      (λ m. m >>= λ kind. do
        kept ← verify_retained_body row kind st.events tail_unchecked st
        ok (advance chain.generation row kept))
      (Accepts-verify_signed c chain row headers st kind a)

-- An event that a full verification accepts is accepted on its own, after the same tag.
tail-of-accepted :
    (c : Crypto) (chain : Chain) (r : CasRetentionState) (row : EventRow) (headers : List Header)
    (st after : VerifyAccumulator) (prev : Bytes) (count : ℕ)
    → verify_event c chain r row headers st ≡ ok after
    → prev ≡ st.prev
    → count ≡ suc st.events
    → verify_tail_event c chain row headers prev count ≡ none
unfolding verify_tail_event
tail-of-accepted c chain r row headers st after prev count h p n =
    let a = verify_event-Accepted c chain r row headers st after h in
    let start = initial prev (count - 1) tail_unchecked none in
    ap tail_result (
      verify_event-unfloored c chain row headers start a.kind
        (Accepts-moved c chain row headers st start a.kind p (omega (arith, n)) a.accepts))
  where
    tail_result : Result VerifyBreak VerifyAccumulator → Option VerifyBreak
    tail_result m = elim m [ ok st ↦ none | err b ↦ some b ]

-- A chain that a full verification accepts passes the check of its last event, with the tag that the
-- query finds before it and the count of the rows; the row ids rise.
pub verify_tail_event-of_verify_all :
    (c : Crypto) (chain : Chain) (r : CasRetentionState) (db : WorldDb) (row : EventRow)
    (st after : VerifyAccumulator)
    → Ascending db.events
    → last_entry db.events ≡ some row
    → st.prev ≡ []
    → st.events ≡ 0
    → verify_all c chain r (entries db) st ≡ ok after
    → verify_tail_event c chain row
        (sorted_headers db row)
        (previous_hmac db.events row.id [])
        (length db.events)
      ≡ none
unfolding verify_all
verify_tail_event-of_verify_all c chain r db row st after up l p z h =
    let (pre, parts) = last-split db.events row l in
    let f : EventRow → Entry = λ x. (x, sorted_headers db x) in
    let split : entries db ≡ map f pre ++ (row, sorted_headers db row) ∷ [] =
      ap (map f) parts ∙ map-append_one f pre row in
    let (mid, h1, h2) = >>=-eq-ok (verify_all c chain r (map f pre) st) _ (
      sym (verify_all-append c chain r (map f pre) _ st)
      ∙ ap (λ es. verify_all c chain r es st) (sym split)
      ∙ h) in
    let (end, h3, h4) = >>=-eq-ok (verify_event c chain r row (sorted_headers db row) mid) _ h2 in
    let count = verify_all-events c chain r (map f pre) st mid h1 in
    tail-of-accepted c chain r row (sorted_headers db row) mid end _ (length db.events) h3
      (ap (λ rows. previous_hmac rows row.id []) parts
        ∙ previous_hmac-last pre row [] (subst Ascending parts up)
        ∙ ap (last_hmac pre) (sym p)
        ∙ sym (verify_all-prev c chain r db pre st mid h1))
      (omega
        (arith, ap length parts, length-append pre (row ∷ []), count, length-entries db pre, z))
