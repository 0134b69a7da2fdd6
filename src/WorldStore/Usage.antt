-- ===== src/WorldStore/Usage.antt =====
-- The bytes that the transactions of core/src/world.rs add to a world's file, against the snapshot
-- that core/src/world_ops.rs takes before them.
use audite_db.Prelude.{
  ℕ, ◌+◌, ◌≡◌, refl, sym, ap, ◌∙◌, ◌≤◌, Bool, none, some, List, ◌++◌, ok, ok-injective, >>=-eq-ok,
  length, length-append, arith, is_some, if◌then◌else◌,
}
use audite_db.Prelude.Text.{Bytes}
use audite_db.Timeline.{Crypto, body_sha256_for}
use audite_db.Audit.Events.{put, append, Header}
use audite_db.Audit.Retention.{WorldDb}
use audite_db.Audit.Access.{Place}
use audite_db.Audit.Append.Entries.{WellFormed}
use audite_db.Cas.{insert_missing, total_len, is_candidate, prune_to_count}
use audite_db.Cas.Estimates.{
  ReplaceQuotaSnapshot, replace_quota_snapshot, missing_body_len, read_body,
  prunable_body_len_after_next_body, append_body_len_if_missing,
  append_prunable_body_len_after_next_write,
}
use audite_db.Cas.Sums.{total_len-filter, total_len-insert_missing}
use audite_db.Cas.Outcomes.{nothing_pruned, raised, prune_to_count-Outcome}
use audite_db.Cas.Predicted.{estimate-bytes}
use audite_db.WorldStore.{
  WorldFile, OpenedWorldKind, existing, AuditVerificationCache, Times, WriteAuditResult,
  write_with_audit, append_with_audit,
}
use audite_db.WorldStore.Committed.{
  write_with_audit-Committed, append_with_audit-Committed, Committed-Finished, Committed-events,
}
use audite_db.WorldStore.Outcomes.{put-is_body, append-is_body, Finished}

-- The bytes of the body of a file.
abbrev pub body_len : WorldDb → ℕ
body_len db = elim db.stage_body [ none ↦ 0 | some b ↦ length b ]

-- The bytes that a file holds.
abbrev pub stored_bytes : WorldDb → ℕ
stored_bytes db = body_len db + total_len db.cas_bodies

prune_to_count-stored :
    (n : ℕ) (db db' : WorldDb) (bytes : ℕ)
    → prune_to_count n db ≡ ok (bytes, db')
    → (total_len db'.cas_bodies + bytes ≡ total_len db.cas_bodies)
      × (db'.stage_body ≡ db.stage_body)
prune_to_count-stored n db db' bytes h = elim (prune_to_count-Outcome n db db' bytes h) [
  | nothing_pruned zero_bytes same low ↦ (ground arith, ap (λ x. x.stage_body) same)
  | raised row e above sum same ↦ (
    omega (
      arith,
      total_len-filter (is_candidate db.events row.id) db.cas_bodies,
      ap (λ x. total_len x.cas_bodies) same,
      sum,
    ),
    ap (λ x. x.stage_body) same,
  )
]

-- What a transaction has done to the bytes of a file, in terms of an estimate of it.
pub record Measured (body : Bytes) (db db' : WorldDb) (inserted : Bool)
    (bytes candidate prunable : ℕ) : Type 0 where
  pub pruned : bytes ≡ prunable
  pub kept : (if inserted then length body else 0) ≡ candidate
  pub stored : stored_bytes db' + prunable ≡ length body + total_len db.cas_bodies + candidate
  pub body_set : db'.stage_body ≡ some body

pub Finished-Measured :
    (c : Crypto) (n : ℕ) (body : Bytes) (db d1 db' : WorldDb) (inserted : Bool) (bytes estimate : ℕ)
    → 1 ≤ n
    → Finished c n body db d1 db' inserted bytes
    → prunable_body_len_after_next_body c db body n ≡ ok estimate
    → Measured body db db' inserted bytes (missing_body_len c db body) estimate
unfolding missing_body_len insert_missing
Finished-Measured c n body db d1 db' inserted bytes estimate positive f h =
    let same =
      estimate-bytes c db f.appended f.marked db' body n estimate bytes f.write h f.prunes
        positive in
    let sums = prune_to_count-stored n f.marked db' bytes f.prunes in
    let added = total_len-insert_missing (body_sha256_for c body) body db.cas_bodies in
    let set : db'.stage_body ≡ some body =
      sums.1 ∙ ap (λ x. x.stage_body) f.write.marked.tables ∙ f.body_set in
    let length_set : body_len db' ≡ length body = ground arith in
    let bodies : total_len f.marked.cas_bodies
        ≡ total_len (insert_missing (body_sha256_for c body) body db.cas_bodies).1 =
      ap (λ x. total_len x.cas_bodies) f.write.marked.tables ∙ ap total_len f.write.bodies in
    let inserted_len : (if (insert_missing (body_sha256_for c body) body db.cas_bodies).0
          then length body
          else 0)
        ≡ missing_body_len c db body =
      ground arith in
    record {
      pruned = sym same;
      kept = ground (arith, f.inserts);
      stored = omega (arith, same, sums.0, added, length_set, bodies, inserted_len);
      body_set = set;
    }

read_body-len : (db : WorldDb) (body : Bytes) → read_body db ≡ ok body → body_len db ≡ length body
unfolding read_body
read_body-len db body h = ground arith

-- What a committed write has done to a file: the body of the length `next`, in place of one of the
-- length `previous`, with `candidate` bytes inserted and `prunable` bytes pruned.
pub record Transacted (previous next candidate prunable : ℕ) (f f' : WorldFile)
    (result : WriteAuditResult) : Type 0 where
  pub pruned : result.pruned_cas ≡ prunable
  pub kept : (if result.cas_body_inserted then next else 0) ≡ candidate
  pub before : body_len f.db ≡ previous
  pub after : body_len f'.db ≡ next
  pub retained : total_len f'.db.cas_bodies + prunable ≡ total_len f.db.cas_bodies + candidate
  pub events :
      length f'.db.events ≡ length f.db.events + 1 + (if is_some result.format_event then 1 else 0)
  pub well : WellFormed f'.db

-- A committed write has inserted and pruned what the snapshot before it foresaw, to the byte, and has
-- written one event, or two of a genesis. The tables are well formed, and at least one body is
-- retained.
pub write_with_audit-Transacted :
    (c : Crypto) (p : Place) (n : ℕ) (t : Times) (opened : OpenedWorldKind) (body ct : Bytes)
    (headers : List Header) (cache cache' : AuditVerificationCache) (f f' : WorldFile)
    (result : WriteAuditResult) (s : ReplaceQuotaSnapshot)
    → 1 ≤ n
    → WellFormed f.db
    → replace_quota_snapshot c (some f.db) body n ≡ ok s
    → write_with_audit c p n t opened body ct headers cache f ≡ ok (result, f', cache')
    → Transacted s.previous_body_len
        (length body)
        s.candidate_cas_len
        s.prunable_cas_len
        f
        f'
        result
unfolding replace_quota_snapshot
write_with_audit-Transacted c p n t opened body ct headers cache cache' f f' result s positive w hs
      h =
    let (before, s1, s2) = >>=-eq-ok (read_body f.db) _ hs in
    let (prunable, s3, s4) = >>=-eq-ok (prunable_body_len_after_next_body c f.db body n) _ s2 in
    let steps =
      write_with_audit-Committed c p n t opened body ct headers cache cache' f f' result h in
    let done =
      Committed-Finished c p n put t opened body ct headers cache cache' f f' result put-is_body w
        steps in
    let m =
      Finished-Measured c n body f.db steps.formatted.1 f'.db result.cas_body_inserted
        result.pruned_cas prunable positive done s3 in
    let after_len : body_len f'.db ≡ length body = ground (arith, m.body_set) in
    let e = ok-injective s4 in
    let before_len = read_body-len f.db before s1 in
    let previous : s.previous_body_len ≡ length before = ap (λ x. x.previous_body_len) (sym e) in
    let candidate : s.candidate_cas_len ≡ missing_body_len c f.db body =
      ap (λ x. x.candidate_cas_len) (sym e) in
    let prunable_len : s.prunable_cas_len ≡ prunable = ap (λ x. x.prunable_cas_len) (sym e) in
    record {
      pruned = m.pruned ∙ sym prunable_len;
      kept = m.kept ∙ sym candidate;
      before = before_len ∙ sym previous;
      after = after_len;
      retained = omega (arith, m.stored, after_len, candidate, prunable_len);
      events =
          Committed-events c p n put t opened body ct headers cache cache' f f' result put-is_body w
            steps;
      well = done.well;
    }

append-candidate :
    (c : Crypto) (db : WorldDb) (body current : Bytes) (candidate : ℕ)
    → db.stage_body ≡ some current
    → append_body_len_if_missing c (some db) body ≡ ok (some candidate)
    → candidate ≡ missing_body_len c db (current ++ body)
unfolding append_body_len_if_missing read_body
append-candidate c db body current candidate e h = ground arith

append-prunable :
    (c : Crypto) (db : WorldDb) (body current : Bytes) (n prunable : ℕ)
    → db.stage_body ≡ some current
    → append_prunable_body_len_after_next_write c (some db) body n ≡ ok (some prunable)
    → prunable_body_len_after_next_body c db (current ++ body) n ≡ ok prunable
unfolding append_prunable_body_len_after_next_write read_body
append-prunable c db body current n prunable e h = ground arith

-- A committed append has inserted and pruned what the two estimates before it foresaw, to the byte,
-- its body is longer by what was appended, and it has written one event, or two of a genesis. The
-- tables are well formed, and at least one body is retained.
pub append_with_audit-Transacted :
    (c : Crypto) (p : Place) (n : ℕ) (t : Times) (body ct : Bytes) (headers : List Header)
    (cache cache' : AuditVerificationCache) (f f' : WorldFile) (result : WriteAuditResult)
    (candidate prunable : ℕ)
    → 1 ≤ n
    → WellFormed f.db
    → append_body_len_if_missing c (some f.db) body ≡ ok (some candidate)
    → append_prunable_body_len_after_next_write c (some f.db) body n ≡ ok (some prunable)
    → append_with_audit c p n t body ct headers cache f ≡ ok (result, f', cache')
    → Transacted (body_len f.db) (body_len f.db + length body) candidate prunable f f' result
append_with_audit-Transacted c p n t body ct headers cache cache' f f' result candidate prunable
      positive w hc hp h =
    let (current, set, committed) =
      append_with_audit-Committed c p n t body ct headers cache cache' f f' result w h in
    let done =
      Committed-Finished c p n append t existing (current ++ body) ct headers cache cache' f f'
        result append-is_body w committed in
    let m =
      Finished-Measured c n (current ++ body) f.db committed.formatted.1 f'.db
        result.cas_body_inserted result.pruned_cas prunable positive done
        (append-prunable c f.db body current n prunable set hp) in
    let expected = append-candidate c f.db body current candidate set hc in
    let was : body_len f.db ≡ length current = ground (arith, set) in
    let now : body_len f'.db ≡ length (current ++ body) = ground (arith, m.body_set) in
    let len = length-append current body in
    let grown_len : body_len f.db + length body ≡ length (current ++ body) =
      omega (arith, was, len) in
    record {
      pruned = m.pruned;
      kept = ap (λ k. if result.cas_body_inserted then k else 0) grown_len ∙ m.kept ∙ sym expected;
      before = refl;
      after = now ∙ sym grown_len;
      retained = omega (arith, m.stored, now, expected);
      events =
          Committed-events c p n append t existing (current ++ body) ct headers cache cache' f f'
            result append-is_body w committed;
      well = done.well;
    }
