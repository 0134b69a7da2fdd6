-- ===== src/Audit/Headers.antt =====
-- core/src/audit/headers.rs: the headers by which a delete event names the body it deletes.
pub mod Subject
use audite_db.Prelude.{
  ℕ, ◌≡◌, refl, Bool, true, false, not, ◌&&◌, ◌||◌, Option, none, some, List, [], ◌∷◌, ◌++◌, map,
  Result, ok, err, require, ok_or, map_err, ◌>>=◌, ◌>>◌, any, all, length, ◌==◌, if◌then◌else◌,
}
use audite_db.Prelude.Text.{
  Bytes, codes, eq_bytes, starts_with, strip_prefix, to_ascii_lowercase, is_lower_hex_digit,
}
use audite_db.Prelude.Int.{ℤ}
use audite_db.Prelude.Decimal.{decimal_ℤ}
use audite_db.Prelude.Parse.{parse_i64}
use audite_db.Auth.{ct_eq}
use audite_db.WorldPath.{from_canonical}
use audite_db.MemoryStore.{is_memory_world}
use audite_db.Timeline.{body_sha256_of, world_generation_of, timeline_seq}
use audite_db.Audit.Events.{Header}

abbrev pub delete_subject_world : Bytes
delete_subject_world = codes "auditedb-delete-subject-world"

abbrev pub delete_subject_generation : Bytes
delete_subject_generation = codes "auditedb-delete-subject-generation"

abbrev pub delete_subject_seq : Bytes
delete_subject_seq = codes "auditedb-delete-subject-seq"

abbrev pub delete_subject_body_sha256 : Bytes
delete_subject_body_sha256 = codes "auditedb-delete-subject-body-sha256"

abbrev pub delete_subject_hmac : Bytes
delete_subject_hmac = codes "auditedb-delete-subject-hmac"

abbrev pub delete_subject_reserved_prefix : Bytes
delete_subject_reserved_prefix = codes "auditedb-delete-subject-"

-- The address of a body and the HMAC label of the event that wrote it.
pub record DeleteSubjectProof : Type 0 where
  pub world : Bytes
  pub generation : Bytes
  pub seq : ℤ
  pub body_sha256 : Bytes
  pub hmac : Bytes

-- `VerifiedDeleteSubject::headers`
unfoldable pub subject_headers : DeleteSubjectProof → List Header
subject_headers p =
    (delete_subject_world, p.world)
    ∷ (delete_subject_generation, p.generation)
    ∷ (delete_subject_seq, decimal_ℤ p.seq)
    ∷ (delete_subject_body_sha256, p.body_sha256)
    ∷ (delete_subject_hmac, p.hmac)
    ∷ []

pub data DeleteSubjectProofError : Type 0 where
  missing duplicated invalid : Bytes → DeleteSubjectProofError
  world_mismatch body_hash_mismatch : DeleteSubjectProofError

unfoldable pub is_reserved_audit_header : Bytes → Bool
is_reserved_audit_header name = starts_with delete_subject_reserved_prefix (to_ascii_lowercase name)

-- `filter_map` of `one_header`
unfoldable pub values_of : List Header → Bytes → List Bytes
values_of [] name = []
values_of ((n, v) ∷ headers) name =
    let rest = values_of headers name in if eq_bytes n name then v ∷ rest else rest

unfoldable pub one_header : List Header → Bytes → Result DeleteSubjectProofError Bytes
unfolding values_of
one_header headers name = elim (values_of headers name) [
  | [] ↦ err (missing name)
  | v ∷ [] ↦ ok v
  | v ∷ w ∷ rest ↦ err (duplicated name)
]

unfoldable pub parse_world : Bytes → Result DeleteSubjectProofError Bytes
parse_world raw = map_err (λ e. invalid delete_subject_world) (from_canonical raw)

unfoldable pub is_lower_hex_len : Bytes → ℕ → Bool
is_lower_hex_len value len = length value == len && all is_lower_hex_digit value

unfoldable pub is_hmac_label : Bytes → Bool
unfolding is_lower_hex_len
is_hmac_label value = elim (strip_prefix (codes "hmac-") value) [
  | none ↦ false
  | some raw ↦ is_lower_hex_len raw 64
]

abbrev pub has_any_reserved : List Header → Bool
has_any_reserved headers = any (λ h. is_reserved_audit_header h.0) headers

-- The part of `delete_subject_proof_from_headers` after its early return.
unfoldable pub subject_proof :
    Bytes → Bytes → List Header → Result DeleteSubjectProofError DeleteSubjectProof
subject_proof target expected_body_sha256 headers = do
  raw_world ← one_header headers delete_subject_world
  world ← parse_world raw_world
  require (eq_bytes world target) world_mismatch
  raw_generation ← one_header headers delete_subject_generation
  generation ← map_err (λ e. invalid delete_subject_generation) (world_generation_of raw_generation)
  raw_seq ← one_header headers delete_subject_seq
  parsed_seq ← map_err (λ e. invalid delete_subject_seq) (parse_i64 raw_seq)
  require (eq_bytes (decimal_ℤ parsed_seq) raw_seq) (invalid delete_subject_seq)
  seq ← map_err (λ e. invalid delete_subject_seq) (timeline_seq parsed_seq)
  raw_body_sha256 ← one_header headers delete_subject_body_sha256
  body_sha256 ← map_err (λ e. invalid delete_subject_body_sha256) (body_sha256_of raw_body_sha256)
  hmac ← one_header headers delete_subject_hmac
  require (is_hmac_label hmac) (invalid delete_subject_hmac)
  require (ct_eq body_sha256 expected_body_sha256) body_hash_mismatch
  ok (record {
    world = world;
    generation = generation;
    seq = seq;
    body_sha256 = body_sha256;
    hmac = hmac;
  })

unfoldable pub delete_subject_proof_from_headers :
    Bytes → Bytes → List Header → Result DeleteSubjectProofError (Option DeleteSubjectProof)
delete_subject_proof_from_headers target expected_body_sha256 headers =
    if not (has_any_reserved headers) && is_memory_world target
    then ok none
    else do proof ← subject_proof target expected_body_sha256 headers; ok (some proof)

pub record AuditHeaders : Type 0 where
  pub user : List Header
  pub delete_subject : Option DeleteSubjectProof

pub data ReservedAuditHeader : Type 0 where
  reserved_audit_header : ReservedAuditHeader

-- `AuditHeaders::from_user`
unfoldable pub from_user : List Header → Result ReservedAuditHeader AuditHeaders
from_user headers =
    if has_any_reserved headers
    then err reserved_audit_header
    else ok (record { user = headers; delete_subject = none })

unfoldable pub with_delete_subject : AuditHeaders → DeleteSubjectProof → AuditHeaders
with_delete_subject h subject = record { user = h.user; delete_subject = some subject }

unfoldable pub to_storage_pairs : AuditHeaders → List Header
unfolding subject_headers
to_storage_pairs h = elim h.delete_subject [
  | none ↦ h.user
  | some subject ↦ h.user ++ subject_headers subject
]
