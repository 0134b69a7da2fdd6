-- ===== src/Tests/Runs.antt =====
-- Runs that the other tests start from.
use audite_db.Prelude.{◌≡◌, refl, none, some, [], ok, ◌∙◌, ap, true}
use audite_db.Prelude.Text.{eq_bytes}
use audite_db.Timeline.{timeline_seq, world_generation_of, is_lower_hex}
use audite_db.Prelude.Decimal.{decimal, digits}
use audite_db.Audit.Frame.{
  canonical_headers, sort_headers, insert_header, hmac_label, is_canonical_sqlite_utc_timestamp,
}
use audite_db.Audit.Retention.{
  tail_unchecked, hash_bodies, floor_is_unset, load_inner, read_first_retained_seq,
  load_hashed_bodies, has_body_bearing_events,
}
use audite_db.Audit.Bodies.{verify_retained_body, verify_completion}
use audite_db.Audit.Verify.{has_version, advance, verify_delete_subject_proof}
use audite_db.Audit.Walk.{
  entries, audit_select, walk, verify_all, VerifyOk, valid, completed, captured_report, verified_ok,
  verified_head, verified_stamp, verify_statement_capture,
}
use audite_db.Audit.Walk.Grouping.{Ascending, walk-audit_select}
use audite_db.Audit.Access.{read_generation, verify_world, chain_head}
use audite_db.Audit.Append.{append_tx, latest_hmac, insert_event, signed_row}
use audite_db.Audit.Append.Entries.{WellFormed}
use audite_db.Audit.Append.RoundTrip.{Admissible, append_tx-verifies}
use audite_db.Tests.Fixtures.{
  toy, chain_a, db_0, put_event, noon, appended_1, db_1, start, after_1, generation_0, place_a,
  format_a, row_f, db_f, appended_f, after_f, head_f, start_c, after_c,
}

pub wf_0 : WellFormed db_0
wf_0 = record { ascending = tt; numbered = tt; owned = tt }

pub Admissible-1 : Admissible toy chain_a put_event
unfolding verify_delete_subject_proof eq_bytes
Admissible-1 = record { bound = refl; version = refl; subject = λ idx. refl }

pub noon_canonical : is_canonical_sqlite_utc_timestamp noon ≡ true
unfolding is_canonical_sqlite_utc_timestamp
noon_canonical = refl

pub appending_1 : append_tx toy chain_a noon put_event db_0 ≡ ok (appended_1, db_1)
unfolding append_tx is_canonical_sqlite_utc_timestamp timeline_seq latest_hmac
appending_1 = refl

pub verified_1 : verify_all toy chain_a tail_unchecked (entries db_1) start ≡ ok after_1
unfolding verify_all verify_retained_body latest_hmac
verified_1 =
    append_tx-verifies toy chain_a tail_unchecked noon put_event db_0 db_1 appended_1 start wf_0
      Admissible-1 refl appending_1

pub Admissible-f : Admissible toy chain_a format_a
unfolding verify_delete_subject_proof eq_bytes has_version canonical_headers sort_headers
    insert_header decimal digits
Admissible-f = record { bound = refl; version = refl; subject = λ idx. refl }

pub appending_f : append_tx toy chain_a noon format_a db_0 ≡ ok (appended_f, db_f)
unfolding append_tx is_canonical_sqlite_utc_timestamp timeline_seq latest_hmac
appending_f = refl

pub verified_f : verify_all toy chain_a tail_unchecked (entries db_f) start ≡ ok after_f
unfolding verify_all verify_retained_body latest_hmac
verified_f =
    append_tx-verifies toy chain_a tail_unchecked noon format_a db_0 db_f appended_f start wf_0
      Admissible-f refl appending_f

pub verified_c : verify_all toy chain_a tail_unchecked (entries db_f) start_c ≡ ok after_c
unfolding verify_all verify_retained_body latest_hmac
verified_c =
    append_tx-verifies toy chain_a tail_unchecked noon format_a db_0 db_f appended_f start_c wf_0
      Admissible-f refl appending_f

pub Ascending-f : Ascending db_f.events
unfolding insert_event
Ascending-f = tt

walked_f : walk toy chain_a tail_unchecked (audit_select db_f) none [] start ≡ ok after_f
walked_f = walk-audit_select toy chain_a tail_unchecked db_f start Ascending-f ∙ verified_f

abbrev report_f : VerifyOk
report_f = record { events = 1; genesis = hmac_label row_f.hmac; latest = hmac_label row_f.hmac }

completed_f :
    completed toy chain_a tail_unchecked (audit_select db_f) true none ≡ ok (report_f, after_f)
unfolding completed verify_completion verified_ok advance floor_is_unset
completed_f = rw (completed, walked_f) refl

captured_f :
    verify_statement_capture toy chain_a tail_unchecked (audit_select db_f) true none
    ≡ ok (valid report_f (some head_f) none)
unfolding verify_statement_capture captured_report verified_head verified_stamp
captured_f = ap (captured_report chain_a none) completed_f

loaded_f : load_inner toy db_f hash_bodies ≡ ok tail_unchecked
unfolding load_inner read_first_retained_seq load_hashed_bodies has_body_bearing_events insert_event
    signed_row eq_bytes
loaded_f = refl

read_f : read_generation db_f ≡ ok generation_0
unfolding read_generation world_generation_of is_lower_hex insert_event
read_f = refl

pub headed_f : chain_head toy place_a db_f ≡ ok (some head_f)
unfolding chain_head verify_world
headed_f = rw (chain_head, verify_world, read_f, loaded_f, captured_f) refl
