-- ===== src/Audit/Walk/Tampering.antt =====
-- What a verified chain of core/src/audit.rs pins down: the hash of its last event determines every
-- event before it, unless two messages collide.
use audite_db.Prelude.{
  ◌≡◌, refl, sym, ap, ◌∙◌, subst, ◌≢◌, ◌⊎◌, inl, inr, List, [], ◌∷◌, map, ok, >>=-eq-ok, Bool-cases,
  rev_onto, rev_onto-injective, map-rev_onto,
}
use mathlib.Core.List.{Memᴰ}
use audite_db.Prelude.Text.{Bytes, eq_bytes, eq_bytes_iff}
use audite_db.Prelude.Int.{pos}
use audite_db.Timeline.{Crypto}
use audite_db.Audit.Events.{EventRow, Header, Entry}
use audite_db.Audit.Frame.{
  EventHmacInput, event_message, event_hmac, meta_message, meta_sha256_canonical,
}
use audite_db.Audit.Frame.Injective.{event_message-injective, meta_message-injective}
use audite_db.Audit.Retention.{CasRetentionState}
use audite_db.Audit.Bodies.{VerifyAccumulator}
use audite_db.Audit.Verify.{Chain, row_input, verify_event, advance}
use audite_db.Audit.Verify.Sound.{Signed, verify_event-Accepted}
use audite_db.Audit.Walk.{verify_all}

-- Two events with different messages of one hash: of their headers, or signed under the key.
abbrev pub Collides : Crypto → Chain → Entry → Entry → Type 0
Collides c chain (row, hs) (other, ks) =
    let i = row_input chain.world chain.generation row.prev_hmac row in
    let j = row_input chain.world chain.generation other.prev_hmac other in
    ((meta_message row.content_type hs ≢ meta_message other.content_type ks)
      × (meta_sha256_canonical c row.content_type hs
          ≡ meta_sha256_canonical c other.content_type ks))
    ⊎ ((event_message i ≢ event_message j) × (event_hmac c chain.key i ≡ event_hmac c chain.key j))

-- An event of one chain and an event of the other collide.
pub record Collision (c : Crypto) (chain : Chain) (es fs : List Entry) : Type 0 where
  pub one : Entry
  pub other : Entry
  pub in_one : Memᴰ one es
  pub in_other : Memᴰ other fs
  pub collides : Collides c chain one other

-- The chain from its last event on, each event signed after the tag before it.
abbrev Linked : Crypto → Chain → List Entry → Bytes → Type 0
Linked c chain [] h = h ≡ []
Linked c chain ((row, headers) ∷ es) h =
    (h ≡ row.hmac) × Signed c chain row.prev_hmac row headers × Linked c chain es row.prev_hmac

-- An event without the number of its row, which is not signed.
abbrev pub unnumbered : Entry → Entry
unnumbered (row, headers) = (
  record {
    id = pos 0;
    timestamp = row.timestamp;
    event_type = row.event_type;
    target = row.target;
    body_sha256 = row.body_sha256;
    size = row.size;
    content_type = row.content_type;
    meta_sha256 = row.meta_sha256;
    hmac = row.hmac;
    prev_hmac = row.prev_hmac;
  },
  headers,
)

abbrev of_input : EventHmacInput → Bytes → List Header → Entry
of_input i hmac headers = (
  record {
    id = pos 0;
    timestamp = i.timestamp;
    event_type = i.event_type;
    target = i.target;
    body_sha256 = i.body_sha256;
    size = i.size;
    content_type = i.content_type;
    meta_sha256 = i.meta_sha256;
    hmac = hmac;
    prev_hmac = i.prev;
  },
  headers,
)

module _ (c : Crypto) (chain : Chain) where
  same_event :
      (row other : EventRow) (hs ks : List Header)
      → Signed c chain row.prev_hmac row hs
      → Signed c chain other.prev_hmac other ks
      → row.hmac ≡ other.hmac
      → ((unnumbered (row, hs) ≡ unnumbered (other, ks)) × (row.prev_hmac ≡ other.prev_hmac))
        ⊎ Collides c chain (row, hs) (other, ks)
  same_event row other hs ks s t e =
      let i = row_input chain.world chain.generation row.prev_hmac row in
      let j = row_input chain.world chain.generation other.prev_hmac other in
      let m = meta_message row.content_type hs in
      let n = meta_message other.content_type ks in
      let tags = sym s.tag ∙ e ∙ t.tag in
      elim (Bool-cases (eq_bytes (event_message i) (event_message j))) [
        | inr differ ↦
            inr (inr ((λ x. cc ((eq_bytes_iff (event_message i) (event_message j)).1 x)), tags))
        | inl alike ↦
            let same = event_message-injective i j ((eq_bytes_iff _ _).0 alike) in
            let digests = sym s.digest ∙ ap (λ i. i.meta_sha256) same ∙ t.digest in
            elim (Bool-cases (eq_bytes m n)) [
              | inr differ ↦ inr (inl ((λ x. cc ((eq_bytes_iff m n).1 x)), digests))
              | inl written ↦
                  let headers =
                    (meta_message-injective row.content_type other.content_type hs ks
                      ((eq_bytes_iff _ _).0 written)).1 in
                  inl (
                    ap (λ x. of_input x row.hmac hs) same
                        ∙ ap (λ h. of_input j h hs) e
                        ∙ ap (λ l. of_input j other.hmac l) headers,
                    ap (λ x. x.prev) same,
                  )
            ]
      ]

  module _ (tagged : (m : Bytes) → c.hmac_sha256_hex chain.key m ≢ []) where
    hmac-ne-nil :
        (prev : Bytes) (row : EventRow) (hs : List Header)
        → Signed c chain prev row hs
        → row.hmac ≢ []
    unfolding event_hmac
    hmac-ne-nil prev row hs s e = tagged _ (sym s.tag ∙ e)

    Linked-unique :
        (xs ys : List Entry) (h : Bytes)
        → Linked c chain xs h
        → Linked c chain ys h
        → (map unnumbered xs ≡ map unnumbered ys) ⊎ Collision c chain xs ys
    Linked-unique [] [] h l m = inl refl
    Linked-unique [] ((row, hs) ∷ ys) h l m = absurd (hmac-ne-nil _ row hs m.1 (sym m.0 ∙ l))
    Linked-unique ((row, hs) ∷ xs) [] h l m = absurd (hmac-ne-nil _ row hs l.1 (sym l.0 ∙ m))
    Linked-unique ((row, hs) ∷ xs) ((other, ks) ∷ ys) h l m =
        elim (same_event row other hs ks l.1 m.1 (sym l.0 ∙ m.0)) [
          | inr collides ↦ inr (record {
            one = (row, hs);
            other = (other, ks);
            in_one = Memᴰ.head refl;
            in_other = Memᴰ.head refl;
            collides = collides;
          })
          | inl (same, prev) ↦
              elim (Linked-unique xs ys row.prev_hmac l.2
                (subst (Linked c chain ys) (sym prev) m.2)) [
                  | inr later ↦ inr (record {
                    one = later.one;
                    other = later.other;
                    in_one = Memᴰ.tail later.in_one;
                    in_other = Memᴰ.tail later.in_other;
                    collides = later.collides;
                  })
                  | inl rest ↦ inl (cc (same, rest))
                ]
        ]

  pub verify_event-prev :
      (r : CasRetentionState) (row : EventRow) (hs : List Header) (st after : VerifyAccumulator)
      → verify_event c chain r row hs st ≡ ok after
      → (after.prev ≡ row.hmac) × Signed c chain row.prev_hmac row hs × (row.prev_hmac ≡ st.prev)
  unfolding advance
  verify_event-prev r row hs st after h =
      let a = verify_event-Accepted c chain r row hs st after h in
      let s = a.accepts.signed in
      (ap (λ x. x.prev) a.result, subst (λ p. Signed c chain p row hs) (sym s.linked) s, s.linked)

  verify_all-Linked :
      (r : CasRetentionState) (es done : List Entry) (st after : VerifyAccumulator)
      → verify_all c chain r es st ≡ ok after
      → Linked c chain done st.prev
      → Linked c chain (rev_onto es done) after.prev
  unfolding verify_all
  verify_all-Linked r [] done st after h l = subst (Linked c chain done) (cc) l
  verify_all-Linked r ((row, hs) ∷ es) done st after h l =
      let (mid, h1, h2) = >>=-eq-ok (verify_event c chain r row hs st) _ h in
      let (e1, s, e2) = verify_event-prev r row hs st mid h1 in
      verify_all-Linked r es ((row, hs) ∷ done) mid after h2
        (e1, s, subst (Linked c chain done) (sym e2) l)

rev_onto-split : (x : Entry) (xs ys : List Entry) → Memᴰ x (rev_onto xs ys) → Memᴰ x xs ⊎ Memᴰ x ys
rev_onto-split x [] ys m = inr m
rev_onto-split x (y ∷ xs) ys m = elim (rev_onto-split x xs (y ∷ ys) m) [
  | inl front ↦ inl (Memᴰ.tail front)
  | inr (Memᴰ.head e) ↦ inl (Memᴰ.head e)
  | inr (Memᴰ.tail back) ↦ inr back
]

Memᴰ-rev_onto : (x : Entry) (xs : List Entry) → Memᴰ x (rev_onto xs []) → Memᴰ x xs
Memᴰ-rev_onto x xs m = elim (rev_onto-split x xs [] m) [
  | inl found ↦ found
  | inr nowhere ↦ elim nowhere [ ]
]

-- Two verified chains of one world under one key that end in the same tag have the same events and
-- headers, whatever the numbers of their rows, or an event of one and an event of the other have
-- different messages of one hash; no tag may be empty.
pub verify_all_unique :
    (c : Crypto) (chain : Chain) (r s : CasRetentionState) (es fs : List Entry)
    (st after st' after' : VerifyAccumulator)
    → ((m : Bytes) → c.hmac_sha256_hex chain.key m ≢ [])
    → st.prev ≡ []
    → st'.prev ≡ []
    → verify_all c chain r es st ≡ ok after
    → verify_all c chain s fs st' ≡ ok after'
    → after.prev ≡ after'.prev
    → (map unnumbered es ≡ map unnumbered fs) ⊎ Collision c chain es fs
verify_all_unique c chain r s es fs st after st' after' tagged p q h k e =
    elim (Linked-unique c chain tagged (rev_onto es []) (rev_onto fs []) after.prev
      (verify_all-Linked c chain r es [] st after h p)
      (subst (Linked c chain (rev_onto fs [])) (sym e)
        (verify_all-Linked c chain s fs [] st' after' k q))) [
          | inr found ↦ inr (record {
            one = found.one;
            other = found.other;
            in_one = Memᴰ-rev_onto found.one es found.in_one;
            in_other = Memᴰ-rev_onto found.other fs found.in_other;
            collides = found.collides;
          })
          | inl same ↦ inl (
              rev_onto-injective (map unnumbered es) (map unnumbered fs)
                (sym (map-rev_onto unnumbered es []) ∙ same ∙ map-rev_onto unnumbered fs []))
        ]
