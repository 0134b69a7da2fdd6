-- ===== src/Tests/Appends.antt =====
-- The theorems on appends and on the headers of a delete, at a put and at a format event.
use audite_db.Prelude.{◌≡◌, refl, none, some, List, [], ◌∷◌, ◌++◌, ◌+◌, ok, arith, ◌>>=◌}
use audite_db.Prelude.Text.{codes, eq_bytes, segments, split, starts_with, strip_prefix}
use audite_db.Prelude.Int.{pos}
use audite_db.WorldPath.{
  from_canonical, validate_world_name, check_segments, is_dot_segment, strip_dot_token, encoded_dot,
  is_reserved_world_name, has_canonical_namespace, first_segment, disk_world_name_len,
  should_disk_encode,
}
use audite_db.Prelude.Utf8.{chars, decode_utf8, is_control}
use audite_db.Timeline.{body_sha256_of, world_generation_of, is_lower_hex}
use audite_db.Audit.Events.{Header, put}
use audite_db.Audit.Frame.{canonical_headers}
use audite_db.Audit.Headers.{
  DeleteSubjectProof, AuditHeaders, from_user, with_delete_subject, to_storage_pairs,
  delete_subject_proof_from_headers, is_reserved_audit_header, is_hmac_label, is_lower_hex_len,
}
use audite_db.Audit.Headers.Subject.{IsSubject, delete_subject_proof_from_headers-stored}
use audite_db.Audit.Retention.{tail_unchecked}
use audite_db.Audit.Walk.{entries, verify_all}
use audite_db.Audit.Append.{latest_hmac, signed_row}
use audite_db.Audit.Append.Entries.{WellFormed}
use audite_db.Audit.Append.RoundTrip.{retain_and_advance, append_tx-verifies, append_tx-WellFormed}
use audite_db.Tests.Fixtures.{
  toy, chain_a, generation_0, checksum, noon, put_event, db_0, db_1, appended_1, start,
}
use audite_db.Tests.Runs.{wf_0, Admissible-1, appending_1}

append_tx-verifies_example : verify_all toy chain_a tail_unchecked (entries db_1) start ≡ (
    verify_all toy chain_a tail_unchecked (entries db_0) start
    >>= retain_and_advance chain_a tail_unchecked
        (signed_row toy chain_a noon (latest_hmac db_0.events) (pos 1) put_event)
        put)
append_tx-verifies_example =
    append_tx-verifies toy chain_a tail_unchecked noon put_event db_0 db_1 appended_1 start wf_0
      Admissible-1 refl appending_1

append_tx-WellFormed_example :
    WellFormed db_1
    × (entries db_1
        ≡ entries db_0
          ++ (
            signed_row toy chain_a noon
                (latest_hmac db_0.events)
                (pos (1 + db_0.last_rowid))
                put_event,
            canonical_headers put_event.headers,
          )
            ∷ [])
append_tx-WellFormed_example =
    append_tx-WellFormed toy chain_a noon put_event db_0 db_1 appended_1 wf_0 appending_1

abbrev subject_a : DeleteSubjectProof
subject_a = record {
  world = codes "home/a";
  generation = generation_0;
  seq = pos 1;
  body_sha256 = checksum (codes "hi");
  hmac = codes "hmac-" ++ checksum [];
}

subject_a-IsSubject : IsSubject subject_a
unfolding from_canonical validate_world_name check_segments is_dot_segment strip_dot_token
    encoded_dot is_reserved_world_name has_canonical_namespace first_segment disk_world_name_len
    should_disk_encode chars decode_utf8 is_control segments split eq_bytes strip_prefix starts_with
    body_sha256_of world_generation_of is_lower_hex is_hmac_label is_lower_hex_len
subject_a-IsSubject = record {
  seq_value = 1;
  canonical = refl;
  generation_hex = refl;
  seq_is = refl;
  seq_positive = omega arith;
  seq_fits = omega arith;
  body_hex = refl;
  hmac_is_label = refl;
}

abbrev user_a : List Header
user_a = (codes "X-Reason", codes "tidy") ∷ []

abbrev headers_a : AuditHeaders
headers_a = record { user = user_a; delete_subject = none }

from_user_a : from_user user_a ≡ ok headers_a
unfolding from_user is_reserved_audit_header starts_with
from_user_a = refl

delete_subject_proof_from_headers-stored_example :
    delete_subject_proof_from_headers
      (codes "home/a")
      (checksum (codes "hi"))
      (canonical_headers (to_storage_pairs (with_delete_subject headers_a subject_a)))
    ≡ ok (some subject_a)
delete_subject_proof_from_headers-stored_example =
    delete_subject_proof_from_headers-stored user_a headers_a subject_a subject_a-IsSubject
      from_user_a
