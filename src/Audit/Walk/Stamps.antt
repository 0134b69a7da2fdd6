-- ===== src/Audit/Walk/Stamps.antt =====
-- The stamp that the walk of core/src/audit/verifier.rs captures at a requested ordinal.
use audite_db.Prelude.{
  ℕ, zero, suc, ◌+◌, ◌≡◌, refl, sym, ap, ◌∙◌, Option, none, some, List, [], ◌∷◌, ok, >>=-eq-ok,
  arith, get_elem?, ◌==◌, if◌then◌else◌, ◌<◌,
}
use audite_db.Prelude.Text.{Bytes}
use audite_db.Prelude.Int.{pos}
use audite_db.Timeline.{Crypto}
use audite_db.Audit.Events.{EventRow, Entry}
use audite_db.Audit.Frame.{hmac_label}
use audite_db.Audit.Retention.{CasRetentionState}
use audite_db.Audit.Bodies.{CapturedStamp, VerifyAccumulator}
use audite_db.Audit.Verify.{Chain, verify_event, advance}
use audite_db.Audit.Verify.Sound.{verify_event-Accepted, verify_retained_body-SameWalk}
use audite_db.Audit.Walk.{verify_all}

-- The stamp of the event at an ordinal, among events of which the first has the ordinal `suc k`.
abbrev stamp_of : Bytes → ℕ → EventRow → CapturedStamp
stamp_of generation n row = record {
  generation = generation;
  seq = pos n;
  hmac = hmac_label row.hmac;
}

capture_from : Bytes → List Entry → ℕ → ℕ → Option CapturedStamp → Option CapturedStamp
capture_from generation [] k n s = s
capture_from generation ((row, hs) ∷ es) k n s =
    capture_from generation es (suc k) n
      (if n == suc k then some (stamp_of generation n row) else s)

verify_event-capture :
    (c : Crypto) (chain : Chain) (r : CasRetentionState) (row : EventRow)
    (hs : List audite_db.Audit.Events.Header) (st after : VerifyAccumulator) (n k : ℕ)
    → verify_event c chain r row hs st ≡ ok after
    → st.capture_stamp_at ≡ some (pos n)
    → st.events ≡ k
    → (after.capture_stamp_at ≡ some (pos n))
      × (after.events ≡ suc k)
      × (after.captured_stamp
          ≡ (if n == suc k then some (stamp_of chain.generation n row) else st.captured_stamp))
unfolding advance
verify_event-capture c chain r row hs st after n k h w z =
    let a = verify_event-Accepted c chain r row hs st after h in
    let s = verify_retained_body-SameWalk row a.kind st.events r st a.kept a.retained in
    ground (arith, a.result, s.same_capture, s.same_events, s.same_stamp)

verify_all-capture :
    (c : Crypto) (chain : Chain) (r : CasRetentionState) (es : List Entry)
    (st after : VerifyAccumulator) (n k : ℕ)
    → verify_all c chain r es st ≡ ok after
    → st.capture_stamp_at ≡ some (pos n)
    → st.events ≡ k
    → after.captured_stamp ≡ capture_from chain.generation es k n st.captured_stamp
unfolding verify_all capture_from
verify_all-capture c chain r [] st after n k h w z =
    let e : st ≡ after = cc in ap (λ s. s.captured_stamp) (sym e)
verify_all-capture c chain r ((row, hs) ∷ es) st after n k h w z =
    let (mid, h1, h2) = >>=-eq-ok (verify_event c chain r row hs st) _ h in
    let (w', z', s) = verify_event-capture c chain r row hs st mid n k h1 w z in
    verify_all-capture c chain r es mid after n (suc k) h2 w' z'
    ∙ ap (capture_from chain.generation es (suc k) n) s

-- The stamp of the event at an ordinal, the first having the ordinal 1.
abbrev pub stamp_at : Bytes → List Entry → ℕ → Option CapturedStamp
stamp_at generation es zero = none
stamp_at generation es (suc j) = elim (get_elem? es j) [
  | none ↦ none
  | some e ↦
      some (record { generation = generation; seq = pos (suc j); hmac = hmac_label e.0.hmac })
]

capture_from-past :
    (generation : Bytes) (es : List Entry) (k n : ℕ) (s : Option CapturedStamp)
    → n < suc k
    → capture_from generation es k n s ≡ s
unfolding capture_from
capture_from-past generation [] k n s h = refl
capture_from-past generation (e ∷ es) k n s h =
    ground (arith, capture_from-past generation es (suc k) n s (omega arith))

capture_from-elem :
    (generation : Bytes) (es : List Entry) (k j n : ℕ)
    → n ≡ suc (k + j)
    → capture_from generation es k n none
      ≡ (elim (get_elem? es j) [ none ↦ none | some e ↦ some (stamp_of generation n e.0) ])
unfolding capture_from
capture_from-elem generation [] k j n h = refl
capture_from-elem generation (e ∷ es) k zero n h = ground (
  arith,
  capture_from-past generation es (suc k) n (some (stamp_of generation n e.0)) (omega (arith, h)),
)
capture_from-elem generation (e ∷ es) k (suc j) n h =
    ground (arith, capture_from-elem generation es (suc k) j n (omega (arith, h)))

-- A walk that accepts a chain captures the stamp of the event at the requested ordinal, if there is
-- one, and none otherwise: the ordinal counts events, and row ids play no part.
pub verify_all-stamp_at :
    (c : Crypto) (chain : Chain) (r : CasRetentionState) (es : List Entry)
    (st after : VerifyAccumulator) (n : ℕ)
    → st.capture_stamp_at ≡ some (pos n)
    → st.captured_stamp ≡ none
    → st.events ≡ 0
    → verify_all c chain r es st ≡ ok after
    → after.captured_stamp ≡ stamp_at chain.generation es n
verify_all-stamp_at c chain r es st after n w s z h =
    verify_all-capture c chain r es st after n 0 h w z
    ∙ ap (capture_from chain.generation es 0 n) s
    ∙ at n
  where
    at : (n : ℕ) → capture_from chain.generation es 0 n none ≡ stamp_at chain.generation es n
    at zero = capture_from-past chain.generation es 0 0 none (omega arith)
    at (suc j) = capture_from-elem chain.generation es 0 j (suc j) (omega arith)
