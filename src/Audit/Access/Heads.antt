-- ===== src/Audit/Access/Heads.antt =====
-- `chain_head_via_conn` of core/src/audit.rs: what the head that a host remembers proves later.
use audite_db.Prelude.{
  ◌≡◌, refl, sym, ap, ◌∙◌, subst, ◌⊎◌, inl, inr, true, Option, none, some, List, [], ◌∷◌, ◌++◌, map,
  ok, err, >>=-eq-ok, arith, append-cancel_left,
}
use audite_db.Prelude.Text.{Bytes, codes}
use audite_db.Prelude.Int.{pos}
use audite_db.Timeline.{Crypto}
use audite_db.Audit.Events.{Entry}
use audite_db.Audit.Frame.{event_hmac, hmac_label}
use audite_db.Audit.Headers.{is_lower_hex_len}
use audite_db.Audit.Retention.{CasRetentionState, WorldDb}
use audite_db.Audit.Bodies.{VerifyAccumulator}
use audite_db.Audit.Verify.{Chain, verify_event}
use audite_db.Audit.Walk.{
  entries, verify_all, initial, VerifyOk, ChainStamp, ChainStampRead, VerifyCapturedReport, valid,
  broken,
}
use audite_db.Audit.Walk.Grouping.{Ascending}
use audite_db.Audit.Walk.Breaks.{verify_all-events}
use audite_db.Audit.Walk.Tampering.{Collision, unnumbered, verify_all_unique, verify_event-prev}
use audite_db.Audit.Access.{Place, chain_of, verify_world, chain_head, stored, chain_broken}
use audite_db.Audit.Access.Reports.{
  TagsAreHex, hmac_label-hex, hex-ne-nil, VerifiedHead, length-entries, stored-ok, capture-valid,
  head-of-report, verify_world-valid,
}

head_report :
    (report : VerifyCapturedReport) (head : ChainStamp)
    → (elim report [ valid o h s ↦ ok h | broken b ↦ err (chain_broken b) ]) ≡ ok (some head)
    → (o : VerifyOk) × (s : Option ChainStampRead) × (report ≡ valid o (some head) s)
head_report (valid o h s) head e = (o, s, cc)
head_report (broken b) head e = absurd (cc)

-- A head that is read is that of a chain that was verified whole: its sequence number counts every
-- event, and its tag is the label of the last event's tag. Row ids rise.
pub chain_head-VerifiedHead :
    (c : Crypto) (p : Place) (db : WorldDb) (head : ChainStamp)
    → Ascending db.events
    → chain_head c p db ≡ ok (some head)
    → VerifiedHead c p db head
unfolding chain_head
chain_head-VerifiedHead c p db head up h =
    let (report, h1, h2) = >>=-eq-ok (stored (verify_world c p db true none)) _ h in
    let (r, h3, h4) = verify_world-valid c p db true none report (stored-ok _ report h1) in
    let (o, s, h5) = head_report report head h2 in
    let (done, h6) =
      capture-valid c (chain_of p db.generation) r db true o head s up (h4 ∙ ap ok h5) in
    let (e1, e2, e3) = head-of-report c (chain_of p db.generation) r db true o head done h6 in
    let count =
      verify_all-events c (chain_of p db.generation) r (entries db) (initial [] 0 r none) done.state
        done.walked in
    record {
      retention = r;
      loaded = h3;
      last = done.state;
      walked = done.walked;
      counted = e1 ∙ ap pos (omega (arith, count, length-entries db db.events));
      labelled = e2;
      incarnation = e3;
    }

-- The tag of an empty chain, or of an event.
IsTag : Bytes → Type 0
IsTag s = (s ≡ []) ⊎ (is_lower_hex_len s 64 ≡ true)

hmac_label-IsTag : (s : Bytes) → IsTag s → hmac_label s ≡ codes "hmac-" ++ s
unfolding IsTag hmac_label
hmac_label-IsTag [] t = refl
hmac_label-IsTag (b ∷ s) (inl e) = absurd (cc)
hmac_label-IsTag (b ∷ s) (inr h) = hmac_label-hex (b ∷ s) h

verify_all-IsTag :
    (c : Crypto) (chain : Chain) (r : CasRetentionState) (es : List Entry)
    (st after : VerifyAccumulator)
    → TagsAreHex c chain.key
    → verify_all c chain r es st ≡ ok after
    → IsTag st.prev
    → IsTag after.prev
unfolding verify_all IsTag event_hmac
verify_all-IsTag c chain r [] st after hex h t = subst IsTag (cc) t
verify_all-IsTag c chain r ((row, hs) ∷ es) st after hex h t =
    let (mid, h1, h2) = >>=-eq-ok (verify_event c chain r row hs st) _ h in
    let (e1, s, e2) = verify_event-prev c chain r row hs st mid h1 in
    verify_all-IsTag c chain r es mid after hex h2
      (inr (subst (λ x. is_lower_hex_len x 64 ≡ true) (sym (e1 ∙ s.tag)) (hex _)))

-- A remembered head pins the whole chain: if a world's head, read now, has the generation and the
-- tag of one read before, then the events and their headers are the same, whatever the numbers of
-- the rows, or an event of one and an event of the other have different messages of one hash. Row ids
-- rise, and tags are 64 lowercase hexadecimal digits.
pub chain_head-pins :
    (c : Crypto) (p : Place) (db db' : WorldDb) (head head' : ChainStamp)
    → TagsAreHex c p.key
    → Ascending db.events
    → Ascending db'.events
    → chain_head c p db ≡ ok (some head)
    → chain_head c p db' ≡ ok (some head')
    → head.generation ≡ head'.generation
    → head.hmac ≡ head'.hmac
    → (map unnumbered (entries db) ≡ map unnumbered (entries db'))
      ⊎ Collision c (chain_of p db.generation) (entries db) (entries db')
unfolding IsTag
chain_head-pins c p db db' head head' hex up up' h k g e =
    let a = chain_head-VerifiedHead c p db head up h in
    let b = chain_head-VerifiedHead c p db' head' up' k in
    let same : db'.generation ≡ db.generation = sym b.incarnation ∙ sym g ∙ a.incarnation in
    let walked =
      subst
        (λ v.
          verify_all c (chain_of p v) b.retention (entries db') (initial [] 0 b.retention none)
          ≡ ok b.last)
        same b.walked in
    let tag =
      verify_all-IsTag c (chain_of p db.generation) a.retention (entries db) _ a.last hex a.walked
        (inl refl) in
    let tag' =
      verify_all-IsTag c (chain_of p db.generation) b.retention (entries db') _ b.last hex walked
        (inl refl) in
    verify_all_unique c (chain_of p db.generation) a.retention b.retention (entries db)
      (entries db') (initial [] 0 a.retention none) a.last (initial [] 0 b.retention none) b.last
      (λ m. hex-ne-nil (c.hmac_sha256_hex p.key m) (hex m)) refl refl a.walked walked
      (append-cancel_left (codes "hmac-") a.last.prev b.last.prev (
        sym (hmac_label-IsTag a.last.prev tag)
        ∙ sym a.labelled
        ∙ e
        ∙ b.labelled
        ∙ hmac_label-IsTag b.last.prev tag'))
