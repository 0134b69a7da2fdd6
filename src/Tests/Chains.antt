-- ===== src/Tests/Chains.antt =====
-- The theorems on chains, at a chain of one event.
use audite_db.Prelude.{◌≡◌, refl, ◌⊎◌, none, List, [], ◌∷◌, ◌++◌, map, length, err}
use audite_db.Prelude.Text.{codes, eq_bytes}
use audite_db.Prelude.Int.{pos}
use audite_db.Audit.Events.{Header, EventRow, VerifyBreak, from_storage}
use audite_db.Audit.Frame.Injective.{event_message-injective}
use audite_db.Audit.Retention.{tail_unchecked}
use audite_db.Audit.Verify.{row_input, verify_event, advance}
use audite_db.Audit.Walk.{entries, audit_select, walk, verify_all, sorted_headers}
use audite_db.Audit.Walk.Grouping.{walk-audit_select}
use audite_db.Audit.Walk.Breaks.{BreaksAt, verify_all-BreaksAt}
use audite_db.Audit.Walk.Stamps.{stamp_at, verify_all-stamp_at}
use audite_db.Audit.Walk.Tampering.{Collision, unnumbered, verify_all_unique}
use audite_db.Audit.Access.{chain_of, previous_hmac, verify_tail_event}
use audite_db.Audit.Access.Heads.{chain_head-VerifiedHead, chain_head-pins}
use audite_db.Audit.Access.Reports.{TagsAreHex, VerifiedHead}
use audite_db.Audit.Access.Tails.{verify_tail_event-of_verify_all}
use audite_db.Audit.Append.{insert_event}
use audite_db.Tests.Fixtures.{
  toy, checksum-hex, start_c, after_c, chain_a, place_a, generation_0, row_1, row_f, db_1, db_f,
  head_f, start, after_1, after_f,
}
use audite_db.Tests.Runs.{verified_1, verified_c, verified_f, Ascending-f, headed_f}

tags_hex : TagsAreHex toy (codes "key")
tags_hex m = checksum-hex (codes "key" ++ m)

chain_head-pins_example :
    (map unnumbered (entries db_f) ≡ map unnumbered (entries db_f))
    ⊎ Collision toy (chain_of place_a db_f.generation) (entries db_f) (entries db_f)
chain_head-pins_example =
    chain_head-pins toy place_a db_f db_f head_f head_f tags_hex Ascending-f Ascending-f headed_f
      headed_f refl refl

chain_head-VerifiedHead_example : VerifiedHead toy place_a db_f head_f
chain_head-VerifiedHead_example =
    chain_head-VerifiedHead toy place_a db_f head_f Ascending-f headed_f

verify_all_unique_example :
    (map unnumbered (entries db_1) ≡ map unnumbered (entries db_1))
    ⊎ Collision toy chain_a (entries db_1) (entries db_1)
verify_all_unique_example =
    verify_all_unique toy chain_a tail_unchecked tail_unchecked (entries db_1) (entries db_1) start
      after_1 start after_1 (λ m e. cc) refl refl verified_1 verified_1 refl

event_message-injective_example :
    row_input (codes "home/a") generation_0 [] row_1
    ≡ row_input (codes "home/a") generation_0 [] row_1
event_message-injective_example =
    event_message-injective (row_input (codes "home/a") generation_0 [] row_1)
      (row_input (codes "home/a") generation_0 [] row_1) refl

abbrev one_header_list : List Header
one_header_list = (codes "a", codes "1") ∷ []

-- A row of an unknown kind.
abbrev stray : EventRow
stray = record {
  id = pos 1;
  timestamp = [];
  event_type = codes "rename";
  target = [];
  body_sha256 = [];
  size = pos 0;
  content_type = [];
  meta_sha256 = [];
  hmac = [];
  prev_hmac = [];
}

abbrev stray_break : VerifyBreak
stray_break = record {
  break_at = 0;
  expected = codes "known-event-type";
  actual = codes "event-type-rename";
}

stray_refused : verify_all toy chain_a tail_unchecked ((stray, []) ∷ []) start ≡ err stray_break
unfolding verify_all verify_event from_storage eq_bytes
stray_refused = refl

verify_all-BreaksAt_example :
    BreaksAt toy chain_a tail_unchecked ((stray, []) ∷ []) start stray_break
verify_all-BreaksAt_example =
    verify_all-BreaksAt toy chain_a tail_unchecked ((stray, []) ∷ []) start stray_break
      stray_refused

verify_tail_event-of_verify_all_example :
    verify_tail_event toy chain_a row_f
      (sorted_headers db_f row_f)
      (previous_hmac db_f.events row_f.id [])
      (length db_f.events)
    ≡ none
unfolding insert_event
verify_tail_event-of_verify_all_example =
    verify_tail_event-of_verify_all toy chain_a tail_unchecked db_f row_f start after_f Ascending-f
      refl refl refl verified_f

walk-audit_select_example :
    walk toy chain_a tail_unchecked (audit_select db_f) none [] start
    ≡ verify_all toy chain_a tail_unchecked (entries db_f) start
walk-audit_select_example = walk-audit_select toy chain_a tail_unchecked db_f start Ascending-f

verify_all-stamp_at_example : after_c.captured_stamp ≡ stamp_at generation_0 (entries db_f) 1
unfolding advance
verify_all-stamp_at_example =
    verify_all-stamp_at toy chain_a tail_unchecked (entries db_f) start_c after_c 1 refl refl refl
      verified_c
