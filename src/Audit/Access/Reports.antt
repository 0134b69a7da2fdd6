-- ===== src/Audit/Access/Reports.antt =====
-- What a report of a verification that was accepted says: core/src/audit.rs.
use audite_db.Prelude.{
  suc, ◌≡◌, refl, sym, ap, ◌∙◌, subst, ◌≢◌, Bool, true, Option, none, some, List, [], ◌∷◌, ◌++◌,
  map, Result, ok, err, >>=-eq-ok, arith, length,
}
use audite_db.Prelude.Text.{Bytes, codes, starts_with}
use audite_db.Prelude.Int.{ℤ, pos}
use audite_db.Timeline.{Crypto, world_generation_of}
use audite_db.Audit.Events.{EventRow, Entry, VerifyBreak}
use audite_db.Audit.Frame.{hmac_label}
use audite_db.Audit.Headers.{is_lower_hex_len}
use audite_db.Audit.Retention.{CasRetentionState, WorldDb, hash_bodies, load_inner}
use audite_db.Audit.Bodies.{VerifyAccumulator, verify_completion}
use audite_db.Audit.Verify.{Chain}
use audite_db.Audit.Walk.{
  entries, sorted_headers, audit_select, walk, verify_all, initial, verified_ok, verified_head,
  no_break, completed, captured_report, verified_stamp, verify_statement_capture, VerifyOk,
  ChainStamp, ChainStampRead, VerifyCapturedReport, valid,
}
use audite_db.Audit.Walk.Grouping.{Ascending, walk-audit_select}
use audite_db.Audit.Access.{Place, chain_of, read_generation, verify_world, stored}

-- Every tag is 64 lowercase hexadecimal digits, as `hex::encode` of 32 bytes is.
abbrev pub TagsAreHex : Crypto → Bytes → Type 0
TagsAreHex c key = (m : Bytes) → is_lower_hex_len (c.hmac_sha256_hex key m) 64 ≡ true

pub hmac_label-hex : (s : Bytes) → is_lower_hex_len s 64 ≡ true → hmac_label s ≡ codes "hmac-" ++ s
unfolding hmac_label is_lower_hex_len starts_with
hmac_label-hex [] h = cc
hmac_label-hex (b ∷ s) h = ground arith

pub hex-ne-nil : (s : Bytes) → is_lower_hex_len s 64 ≡ true → s ≢ []
unfolding is_lower_hex_len
hex-ne-nil [] h e = cc
hex-ne-nil (b ∷ s) h e = cc

-- What an accepted walk and its report have in common.
pub record Completed (c : Crypto) (chain : Chain) (r : CasRetentionState) (db : WorldDb)
    (allow_empty : Bool) (capture : Option ℤ) (report : VerifyOk) : Type 0 where
  pub state : VerifyAccumulator
  pub walked : verify_all c chain r (entries db) (initial [] 0 r capture) ≡ ok state
  pub complete : verify_completion state r ≡ none
  pub reported : verified_ok allow_empty state ≡ ok report

no_break-ok : (b : Option VerifyBreak) → no_break b ≡ ok tt → b ≡ none
no_break-ok none h = refl
no_break-ok (some b) h = cc

pub completed-Completed :
    (c : Crypto) (chain : Chain) (r : CasRetentionState) (db : WorldDb) (allow_empty : Bool)
    (capture : Option ℤ) (report : VerifyOk) (st : VerifyAccumulator)
    → Ascending db.events
    → completed c chain r (audit_select db) allow_empty capture ≡ ok (report, st)
    → Completed c chain r db allow_empty capture report
unfolding completed
completed-Completed c chain r db allow_empty capture report st up h =
    let (state, h1, h2) =
      >>=-eq-ok (walk c chain r (audit_select db) none [] (initial [] 0 r capture)) _ h in
    let (u, h3, h4) = >>=-eq-ok (no_break (verify_completion state r)) _ h2 in
    let (o, h5, h6) = >>=-eq-ok (verified_ok allow_empty state) _ h4 in
    record {
      state = state;
      walked = sym (walk-audit_select c chain r db (initial [] 0 r capture) up) ∙ h1;
      complete = no_break-ok (verify_completion state r) (cc);
      reported = cc;
    }

-- What a head proves of the world that it was read from.
pub record VerifiedHead (c : Crypto) (p : Place) (db : WorldDb) (head : ChainStamp) : Type 0 where
  pub retention : CasRetentionState
  pub loaded : load_inner c db hash_bodies ≡ ok retention
  pub last : VerifyAccumulator
  pub walked :
      verify_all c (chain_of p db.generation) retention (entries db) (initial [] 0 retention none)
      ≡ ok last
  pub counted : head.seq ≡ pos (length db.events)
  pub labelled : head.hmac ≡ hmac_label last.prev
  pub incarnation : head.generation ≡ db.generation

pub length-entries :
    (db : WorldDb) (rows : List EventRow)
    → length {A = Entry} (map (λ row. (row, sorted_headers db row)) rows) ≡ length rows
length-entries db [] = refl
length-entries db (row ∷ rows) = ap suc (length-entries db rows)

generation-read : (db : WorldDb) (g : Bytes) → read_generation db ≡ ok g → g ≡ db.generation
unfolding read_generation world_generation_of
generation-read db g h = ground arith

pub stored-ok {ℓ} :
    {A : Type ℓ} (m : Result audite_db.Audit.Retention.StorageError A) (a : A)
    → stored m ≡ ok a
    → m ≡ ok a
stored-ok (ok b) a h = cc
stored-ok (err e) a h = cc

pub report-valid :
    (chain : Chain) (capture : Option ℤ) (m : Result VerifyBreak (VerifyOk × VerifyAccumulator))
    (o : VerifyOk) (head : Option ChainStamp) (s : Option ChainStampRead)
    → captured_report chain capture m ≡ ok (valid o head s)
    → (st : VerifyAccumulator) × (m ≡ ok (o, st))
      × (verified_head chain.generation o ≡ ok head)
      × (verified_stamp chain.generation capture st ≡ s)
unfolding captured_report
report-valid chain capture (err b) o head s h = absurd (cc)
report-valid chain capture (ok (report, st)) o head s h =
    let (found_head, h1, h2) = >>=-eq-ok (verified_head chain.generation report) _ h in
    (st, cc, cc, cc)

pub capture-valid :
    (c : Crypto) (chain : Chain) (r : CasRetentionState) (db : WorldDb) (allow_empty : Bool)
    (o : VerifyOk) (head : ChainStamp) (s : Option ChainStampRead)
    → Ascending db.events
    → verify_statement_capture c chain r (audit_select db) allow_empty none
      ≡ ok (valid o (some head) s)
    → Completed c chain r db allow_empty none o
      × (verified_head chain.generation o ≡ ok (some head))
unfolding verify_statement_capture
capture-valid c chain r db allow_empty o head s up h =
    let (st, h1, h2, h3) = report-valid chain none _ o (some head) s h in
    (completed-Completed c chain r db allow_empty none o st up h1, h2)

pub head-of-report :
    (c : Crypto) (chain : Chain) (r : CasRetentionState) (db : WorldDb) (allow_empty : Bool)
    (o : VerifyOk) (head : ChainStamp)
    → (done : Completed c chain r db allow_empty none o)
    → verified_head chain.generation o ≡ ok (some head)
    → (head.seq ≡ pos done.state.events)
      × (head.hmac ≡ hmac_label done.state.prev)
      × (head.generation ≡ chain.generation)
unfolding verified_head verified_ok
head-of-report c chain r db allow_empty o head done h = let e = done.reported in ground arith

pub verify_world-valid :
    (c : Crypto) (p : Place) (db : WorldDb) (allow_empty : Bool) (capture : Option ℤ)
    (report : VerifyCapturedReport)
    → verify_world c p db allow_empty capture ≡ ok report
    → (r : CasRetentionState) × (load_inner c db hash_bodies ≡ ok r)
      × (verify_statement_capture c
            (chain_of p db.generation)
            r
            (audit_select db)
            allow_empty
            capture
          ≡ ok report)
unfolding verify_world
verify_world-valid c p db allow_empty capture report h =
    let (g, h1, h2) = >>=-eq-ok (read_generation db) _ h in
    let (r, h3, h4) = >>=-eq-ok (load_inner c db hash_bodies) _ h2 in
    (
      r,
      h3,
      subst
          (λ g.
            verify_statement_capture c (chain_of p g) r (audit_select db) allow_empty capture
            ≡ ok report)
          (generation-read db g h1) h4,
    )
