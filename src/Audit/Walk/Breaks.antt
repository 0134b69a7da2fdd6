-- ===== src/Audit/Walk/Breaks.antt =====
-- Where the walk of core/src/audit/verifier.rs stops, and what it counts.
use audite_db.Prelude.{
  ℕ, ◌+◌, ◌≡◌, refl, ap, ◌∙◌, List, [], ◌∷◌, ◌++◌, ok, err, ◌>>=◌, >>=-eq-ok, >>=-eq-err, length,
  arith, inl, inr,
}
use audite_db.Timeline.{Crypto}
use audite_db.Audit.Events.{AuditEventKind, EventRow, Header, Entry, VerifyBreak}
use audite_db.Audit.Retention.{CasRetentionState}
use audite_db.Audit.Bodies.{VerifyAccumulator, verify_retained_body}
use audite_db.Audit.Verify.{
  Chain, verify_event, verify_signed, verify_delete_subject_proof, delete_subject_proof_break,
  advance,
}
use audite_db.Audit.Verify.Sound.{verify_event-Accepted, verify_retained_body-SameWalk}
use audite_db.Audit.Walk.{verify_entry, verify_all}

delete_break_at :
    (row : EventRow) (headers : List Header) (k : AuditEventKind) (idx : ℕ) (b : VerifyBreak)
    → verify_delete_subject_proof row headers k idx ≡ err b
    → b.break_at ≡ idx
unfolding verify_delete_subject_proof delete_subject_proof_break
delete_break_at row headers k idx b h = ground arith

signed_break_at :
    (c : Crypto) (chain : Chain) (row : EventRow) (headers : List Header) (st : VerifyAccumulator)
    (b : VerifyBreak)
    → verify_signed c chain row headers st ≡ err b
    → b.break_at ≡ st.events
unfolding verify_signed
signed_break_at c chain row headers st b h = ground (arith)

retained_break_at :
    (row : EventRow) (k : AuditEventKind) (idx : ℕ) (r : CasRetentionState) (st : VerifyAccumulator)
    (b : VerifyBreak)
    → verify_retained_body row k idx r st ≡ err b
    → b.break_at ≡ idx
unfolding verify_retained_body
retained_break_at row k idx r st b h = ground arith

pub verify_event-break_at :
    (c : Crypto) (chain : Chain) (r : CasRetentionState) (row : EventRow) (headers : List Header)
    (st : VerifyAccumulator) (b : VerifyBreak)
    → verify_event c chain r row headers st ≡ err b
    → b.break_at ≡ st.events
unfolding verify_event
verify_event-break_at c chain r row headers st b h =
    elim (>>=-eq-err (verify_signed c chain row headers st) _ h) [
      | inl h1 ↦ signed_break_at c chain row headers st b h1
      | inr (kind, h1, h2) ↦ elim (>>=-eq-err (verify_retained_body row kind st.events r st) _ h2) [
        | inl h3 ↦ retained_break_at row kind st.events r st b h3
        | inr (kept, h3, h4) ↦ absurd (cc)
      ]
    ]

pub verify_event-events :
    (c : Crypto) (chain : Chain) (r : CasRetentionState) (row : EventRow) (headers : List Header)
    (st after : VerifyAccumulator)
    → verify_event c chain r row headers st ≡ ok after
    → after.events ≡ 1 + st.events
unfolding advance
verify_event-events c chain r row headers st after h =
    let a = verify_event-Accepted c chain r row headers st after h in
    let s = verify_retained_body-SameWalk row a.kind st.events r st a.kept a.retained in
    ap (λ x. x.events) a.result ∙ ap (λ n. 1 + n) s.same_events

-- An accepted chain is counted event by event.
pub verify_all-events :
    (c : Crypto) (chain : Chain) (r : CasRetentionState) (es : List Entry)
    (st after : VerifyAccumulator)
    → verify_all c chain r es st ≡ ok after
    → after.events ≡ st.events + length es
unfolding verify_all
verify_all-events c chain r [] st after h =
    let e : after.events ≡ st.events = cc in omega (arith, e)
verify_all-events c chain r ((row, hs) ∷ es) st after h =
    let (mid, h1, h2) = >>=-eq-ok (verify_event c chain r row hs st) _ h in
    omega (
      arith,
      verify_event-events c chain r row hs st mid h1,
      verify_all-events c chain r es mid after h2,
    )

-- Where a chain breaks.
pub record BreaksAt (c : Crypto) (chain : Chain) (r : CasRetentionState) (es : List Entry)
    (st : VerifyAccumulator) (b : VerifyBreak) : Type 0 where
  pub before : List Entry
  pub first : Entry
  pub later : List Entry
  pub reached : VerifyAccumulator
  pub parts : es ≡ before ++ first ∷ later
  pub accepted : verify_all c chain r before st ≡ ok reached
  pub refused : verify_entry c chain r first reached ≡ err b
  pub place : b.break_at ≡ st.events + length before

-- A chain that is refused breaks at its first event that is refused, and the report counts the
-- events before it.
pub verify_all-BreaksAt :
    (c : Crypto) (chain : Chain) (r : CasRetentionState) (es : List Entry) (st : VerifyAccumulator)
    (b : VerifyBreak)
    → verify_all c chain r es st ≡ err b
    → BreaksAt c chain r es st b
unfolding verify_all
verify_all-BreaksAt c chain r [] st b h = absurd (cc)
verify_all-BreaksAt c chain r ((row, hs) ∷ es) st b h =
    elim (>>=-eq-err (verify_event c chain r row hs st) _ h) [
      | inl h1 ↦ record {
        before = [];
        first = (row, hs);
        later = es;
        reached = st;
        parts = refl;
        accepted = refl;
        refused = h1;
        place = omega (arith, verify_event-break_at c chain r row hs st b h1);
      }
      | inr (mid, h1, h2) ↦
          let rest = verify_all-BreaksAt c chain r es mid b h2 in
          record {
            before = (row, hs) ∷ rest.before;
            first = rest.first;
            later = rest.later;
            reached = rest.reached;
            parts = ap (λ l. (row, hs) ∷ l) rest.parts;
            accepted = ap (λ m. m >>= verify_all c chain r rest.before) h1 ∙ rest.accepted;
            refused = rest.refused;
            place = omega (arith, rest.place, verify_event-events c chain r row hs st mid h1);
          }
    ]
