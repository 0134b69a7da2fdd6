-- ===== src/Audit/Verify/Sound.antt =====
-- What `verify_event` of core/src/audit/verifier.rs has found when it accepts an event.
use audite_db.Prelude.{
  ℕ, ◌≡◌, refl, sym, Bool, true, false, not, ◌||◌, some, List, ok, require, >>=-eq-ok, arith,
}
use audite_db.Prelude.Text.{Bytes, eq_bytes}
use audite_db.Auth.Compare.{ct_eq_iff}
use audite_db.Timeline.{Crypto}
use audite_db.Audit.Events.{AuditEventKind, EventRow, Header, from_storage, is_format_kind}
use audite_db.Audit.Frame.{event_hmac, meta_sha256_canonical, is_canonical_sqlite_utc_timestamp}
use audite_db.Audit.Retention.{CasRetentionState}
use audite_db.Audit.Bodies.{VerifyAccumulator, verify_retained_body}
use audite_db.Audit.Verify.{
  Chain, row_input, target_bound_to_world, has_version, verify_delete_subject_proof, verify_signed,
  verify_event, advance,
}

-- An event that is linked to `prev` and whose digest and tag are those of its contents.
pub record Signed (c : Crypto) (chain : Chain) (prev : Bytes) (row : EventRow)
    (headers : List Header) : Type 0 where
  pub linked : row.prev_hmac ≡ prev
  pub digest : row.meta_sha256 ≡ meta_sha256_canonical c row.content_type headers
  pub tag : row.hmac ≡ event_hmac c chain.key (row_input chain.world chain.generation prev row)

-- What the tests of `verify_signed` ask for.
pub record Accepts (c : Crypto) (chain : Chain) (row : EventRow) (headers : List Header)
    (st : VerifyAccumulator) (kind : AuditEventKind) : Type 0 where
  pub known : from_storage row.event_type ≡ some kind
  pub bound : (not (target_bound_to_world kind) || eq_bytes chain.world row.target) ≡ true
  pub signed : Signed c chain st.prev row headers
  pub version : (not (is_format_kind kind) || has_version headers) ≡ true
  pub subject : verify_delete_subject_proof row headers kind st.events ≡ ok tt
  pub time : is_canonical_sqlite_utc_timestamp row.timestamp ≡ true

require-ok {ℓ} : {E : Type ℓ} (b : Bool) (e : E) → require b e ≡ ok tt → b ≡ true
require-ok true e h = refl
require-ok false e h = cc

module _ (c : Crypto) (chain : Chain) (row : EventRow) (headers : List Header)
    (st : VerifyAccumulator) where
  pub verify_signed-Accepts :
      (kind : AuditEventKind)
      → verify_signed c chain row headers st ≡ ok kind
      → Accepts c chain row headers st kind
  unfolding verify_signed
  verify_signed-Accepts kind h = ground (
    arith,
    ct_eq_iff row.prev_hmac st.prev,
    ct_eq_iff (meta_sha256_canonical c row.content_type headers) row.meta_sha256,
    ct_eq_iff (event_hmac c chain.key (row_input chain.world chain.generation st.prev row))
        row.hmac,
  )

  pub Accepts-verify_signed :
      (kind : AuditEventKind)
      → Accepts c chain row headers st kind
      → verify_signed c chain row headers st ≡ ok kind
  unfolding verify_signed
  Accepts-verify_signed kind a =
      let s = a.signed in
      let linked = (ct_eq_iff row.prev_hmac st.prev).1 s.linked in
      let digest =
        (ct_eq_iff (meta_sha256_canonical c row.content_type headers) row.meta_sha256).1
          (sym s.digest) in
      let tag =
        (ct_eq_iff (event_hmac c chain.key (row_input chain.world chain.generation st.prev row))
            row.hmac).1
          (cc (s.tag)) in
      simp (a.known, a.bound, linked, a.version, a.subject, digest, a.time, tag)

-- The part of the state that the check of the retained bodies leaves alone.
pub record SameWalk (st kept : VerifyAccumulator) : Type 0 where
  pub same_prev : kept.prev ≡ st.prev
  pub same_genesis : kept.genesis ≡ st.genesis
  pub same_events : kept.events ≡ st.events
  pub same_capture : kept.capture_stamp_at ≡ st.capture_stamp_at
  pub same_stamp : kept.captured_stamp ≡ st.captured_stamp

pub verify_retained_body-SameWalk :
    (row : EventRow) (kind : AuditEventKind) (idx : ℕ) (r : CasRetentionState)
    (st kept : VerifyAccumulator)
    → verify_retained_body row kind idx r st ≡ ok kept
    → SameWalk st kept
unfolding verify_retained_body
verify_retained_body-SameWalk row kind idx r st kept h = ground arith

-- What an accepted event leaves.
pub record Accepted (c : Crypto) (chain : Chain) (r : CasRetentionState) (row : EventRow)
    (headers : List Header) (st after : VerifyAccumulator) : Type 0 where
  pub kind : AuditEventKind
  pub accepts : Accepts c chain row headers st kind
  pub kept : VerifyAccumulator
  pub retained : verify_retained_body row kind st.events r st ≡ ok kept
  pub result : after ≡ advance chain.generation row kept

pub verify_event-Accepted :
    (c : Crypto) (chain : Chain) (r : CasRetentionState) (row : EventRow) (headers : List Header)
    (st after : VerifyAccumulator)
    → verify_event c chain r row headers st ≡ ok after
    → Accepted c chain r row headers st after
unfolding verify_event
verify_event-Accepted c chain r row headers st after h =
    let (kind, h1, h2) = >>=-eq-ok (verify_signed c chain row headers st) _ h in
    let (kept, h3, h4) = >>=-eq-ok (verify_retained_body row kind st.events r st) _ h2 in
    record {
      kind = kind;
      accepts = verify_signed-Accepts c chain row headers st kind h1;
      kept = kept;
      retained = h3;
      result = cc;
    }
