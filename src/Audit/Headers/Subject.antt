-- ===== src/Audit/Headers/Subject.antt =====
-- The subject of a delete: what core/src/audit/headers.rs writes among the headers, it reads back.
use audite_db.Prelude.{
  ℕ, ◌≡◌, refl, sym, ap, ◌∙◌, subst, ◌≤◌, true, false, some, List, [], ◌∷◌, ◌++◌, map, Result, ok,
  err, arith, Bool-cases, inl, inr,
}
use audite_db.Prelude.Text.{
  Bytes, eq_bytes, eq_bytes_iff, eq_bytes_refl, eq_bytes_sound, starts_with, to_ascii_lowercase,
}
use audite_db.Prelude.Int.{ℤ, pos}
use audite_db.Prelude.Decimal.{decimal_ℤ}
use audite_db.Prelude.Parse.{i64_max, parse_i64, parse_i64-decimal}
use audite_db.Auth.Compare.{ct_eq_iff}
use audite_db.WorldPath.{from_canonical}
use audite_db.Timeline.{body_sha256_of, world_generation_of, timeline_seq}
use audite_db.Audit.Events.{Header}
use audite_db.Audit.Frame.{insert_header, sort_headers, canonical_headers}
use audite_db.Audit.Headers.{
  DeleteSubjectProof, missing, duplicated, subject_headers, is_reserved_audit_header, values_of,
  one_header, parse_world, is_hmac_label, has_any_reserved, subject_proof,
  delete_subject_proof_from_headers, AuditHeaders, from_user, with_delete_subject, to_storage_pairs,
  delete_subject_reserved_prefix, delete_subject_world, delete_subject_generation,
  delete_subject_seq, delete_subject_body_sha256, delete_subject_hmac,
}

values_of-append :
    (l m : List Header) (name : Bytes)
    → values_of (l ++ m) name ≡ values_of l name ++ values_of m name
unfolding values_of
values_of-append [] m name = refl
values_of-append ((n, v) ∷ l) m name = ground (arith, values_of-append l m name)

-- A header that sorting moves past others of another name.
insert-other :
    (n v : Bytes) (l : List Header) (name : Bytes)
    → eq_bytes n name ≡ false
    → values_of (insert_header (n, v) l) name ≡ values_of l name
unfolding values_of insert_header
insert-other n v [] name h = simp (h)
insert-other n v ((m, w) ∷ l) name h = ground (arith, insert-other n v l name h)

insert-only :
    (n v : Bytes) (l : List Header) (name : Bytes)
    → eq_bytes n name ≡ true
    → values_of l name ≡ []
    → values_of (insert_header (n, v) l) name ≡ v ∷ []
unfolding values_of insert_header
insert-only n v [] name h e = simp (h)
insert-only n v ((m, w) ∷ l) name h e = ground (arith, insert-only n v l name h)

sort-none :
    (l : List Header) (name : Bytes) → values_of l name ≡ [] → values_of (sort_headers l) name ≡ []
unfolding values_of sort_headers
sort-none [] name e = refl
sort-none ((n, v) ∷ l) name e =
    ground (arith, insert-other n v (sort_headers l) name, sort-none l name)

sort-only :
    (l : List Header) (name v : Bytes)
    → values_of l name ≡ v ∷ []
    → values_of (sort_headers l) name ≡ v ∷ []
unfolding values_of sort_headers
sort-only [] name v e = cc
sort-only ((n, w) ∷ l) name v e = ground (
  arith,
  insert-other n w (sort_headers l) name,
  insert-only n w (sort_headers l) name,
  sort-none l name,
  sort-only l name v,
)

abbrev lowered : List Header → List Header
lowered l = map (λ h. (to_ascii_lowercase h.0, h.1)) l

user-none :
    (user : List Header) (name : Bytes)
    → starts_with delete_subject_reserved_prefix name ≡ true
    → has_any_reserved user ≡ false
    → values_of (lowered user) name ≡ []
unfolding values_of is_reserved_audit_header
user-none [] name s h = refl
user-none ((n, v) ∷ user) name s h = elim (Bool-cases (eq_bytes (to_ascii_lowercase n) name)) [
  | inl same ↦ absurd (cc (eq_bytes_sound (to_ascii_lowercase n) name same, s, h))
  | inr other ↦ ground (arith, user-none user name s)
]

lowered-append : (l m : List Header) → lowered (l ++ m) ≡ lowered l ++ lowered m
lowered-append [] m = refl
lowered-append (h ∷ l) m = ap (λ k. (to_ascii_lowercase h.0, h.1) ∷ k) (lowered-append l m)

lowered-subject : (p : DeleteSubjectProof) → lowered (subject_headers p) ≡ subject_headers p
unfolding subject_headers
lowered-subject p = refl

-- The headers that a delete event stores: the user's and the subject's.
abbrev pub stored_headers : List Header → DeleteSubjectProof → List Header
stored_headers user p = canonical_headers (user ++ subject_headers p)

stored-only :
    (user : List Header) (p : DeleteSubjectProof) (name v : Bytes)
    → has_any_reserved user ≡ false
    → starts_with delete_subject_reserved_prefix name ≡ true
    → values_of (subject_headers p) name ≡ v ∷ []
    → values_of (stored_headers user p) name ≡ v ∷ []
unfolding canonical_headers
stored-only user p name v u s e = sort-only (lowered (user ++ subject_headers p)) name v (
    ap (λ l. values_of l name)
      (lowered-append user (subject_headers p) ∙ ap (λ m. lowered user ++ m) (lowered-subject p))
    ∙ values_of-append (lowered user) (subject_headers p) name
    ∙ ap (λ l. l ++ values_of (subject_headers p) name) (user-none user name s u)
    ∙ e)

one_header-only :
    (l : List Header) (name v : Bytes) → values_of l name ≡ v ∷ [] → one_header l name ≡ ok v
unfolding one_header
one_header-only l name v e = ap only e
  where
    only : List Bytes → Result audite_db.Audit.Headers.DeleteSubjectProofError Bytes
    only vs = elim vs [
      | [] ↦ err (missing name)
      | v ∷ [] ↦ ok v
      | v ∷ w ∷ rest ↦ err (duplicated name)
    ]

reserved-any :
    (l : List Header) (name v : Bytes)
    → is_reserved_audit_header name ≡ true
    → values_of l name ≡ v ∷ []
    → has_any_reserved l ≡ true
unfolding values_of
reserved-any [] name v s e = absurd (cc)
reserved-any ((n, w) ∷ l) name v s e = ground (arith, reserved-any l name v s, eq_bytes_iff n name)

-- A proof that names a canonical world, a generation, a positive row id, a body and a tag.
pub record IsSubject (p : DeleteSubjectProof) : Type 0 where
  pub seq_value : ℕ
  pub canonical : from_canonical p.world ≡ ok p.world
  pub generation_hex : world_generation_of p.generation ≡ ok p.generation
  pub seq_is : p.seq ≡ pos seq_value
  pub seq_positive : 1 ≤ seq_value
  pub seq_fits : seq_value ≤ i64_max
  pub body_hex : body_sha256_of p.body_sha256 ≡ ok p.body_sha256
  pub hmac_is_label : is_hmac_label p.hmac ≡ true

pub timeline_seq-positive : (a : ℤ) (n : ℕ) → a ≡ pos n → 1 ≤ n → timeline_seq a ≡ ok a
unfolding timeline_seq
timeline_seq-positive a n e h = ground arith

pub seq-parsed : (a : ℤ) (n : ℕ) → a ≡ pos n → n ≤ i64_max → parse_i64 (decimal_ℤ a) ≡ ok a
unfolding decimal_ℤ
seq-parsed a n e h = subst (λ b. parse_i64 (decimal_ℤ b) ≡ ok b) (sym e) (parse_i64-decimal n h)

module _ (user : List Header) (p : DeleteSubjectProof) (u : has_any_reserved user ≡ false) where
  subject-world : values_of (stored_headers user p) delete_subject_world ≡ p.world ∷ []
  unfolding subject_headers values_of eq_bytes starts_with
  subject-world = stored-only user p delete_subject_world p.world u refl refl

  subject-generation :
      values_of (stored_headers user p) delete_subject_generation ≡ p.generation ∷ []
  unfolding subject_headers values_of eq_bytes starts_with
  subject-generation = stored-only user p delete_subject_generation p.generation u refl refl

  subject-seq : values_of (stored_headers user p) delete_subject_seq ≡ decimal_ℤ p.seq ∷ []
  unfolding subject_headers values_of eq_bytes starts_with
  subject-seq = stored-only user p delete_subject_seq (decimal_ℤ p.seq) u refl refl

  subject-body : values_of (stored_headers user p) delete_subject_body_sha256 ≡ p.body_sha256 ∷ []
  unfolding subject_headers values_of eq_bytes starts_with
  subject-body = stored-only user p delete_subject_body_sha256 p.body_sha256 u refl refl

  subject-hmac : values_of (stored_headers user p) delete_subject_hmac ≡ p.hmac ∷ []
  unfolding subject_headers values_of eq_bytes starts_with
  subject-hmac = stored-only user p delete_subject_hmac p.hmac u refl refl

  subject_proof-stored :
      IsSubject p → subject_proof p.world p.body_sha256 (stored_headers user p) ≡ ok p
  unfolding subject_proof parse_world
  subject_proof-stored i = simp (
    one_header-only _ _ _ subject-world,
    one_header-only _ _ _ subject-generation,
    one_header-only _ _ _ subject-seq,
    one_header-only _ _ _ subject-body,
    one_header-only _ _ _ subject-hmac,
    i.canonical,
    i.generation_hex,
    i.body_hex,
    i.hmac_is_label,
    seq-parsed p.seq i.seq_value i.seq_is i.seq_fits,
    timeline_seq-positive p.seq i.seq_value i.seq_is i.seq_positive,
    eq_bytes_refl p.world,
    eq_bytes_refl (decimal_ℤ p.seq),
    (ct_eq_iff p.body_sha256 p.body_sha256).1 refl,
  )

-- Whatever headers a client sends, if `from_user` takes them, the subject that is stored with them is
-- the one that the verifier reads: none of the client's can stand in for it or beside it. The
-- subject's parts are well formed.
pub delete_subject_proof_from_headers-stored :
    (user : List Header) (h : AuditHeaders) (p : DeleteSubjectProof)
    → IsSubject p
    → from_user user ≡ ok h
    → delete_subject_proof_from_headers p.world p.body_sha256
        (canonical_headers (to_storage_pairs (with_delete_subject h p)))
      ≡ ok (some p)
unfolding delete_subject_proof_from_headers from_user to_storage_pairs with_delete_subject
    is_reserved_audit_header starts_with
delete_subject_proof_from_headers-stored user h p i e = elim (Bool-cases (has_any_reserved user)) [
  | inl taken ↦ absurd (ground arith)
  | inr free ↦
      let same : h.user ≡ user = ground arith in
      let named =
        reserved-any (stored_headers user p) delete_subject_world p.world refl
          (subject-world user p free) in
      let proof = subject_proof-stored user p free i in rw (same, named, proof) refl
]
