-- ===== src/WorldOps/Transactions.antt =====
-- What the transactions of core/src/world_ops.rs do to the engine's state, on each of their branches.
use audite_db.Prelude.{
  ℕ, ◌+◌, ◌≡◌, refl, sym, ap, ◌∙◌, subst, some, Option-cases, List, Result, ok, err, Result-cases,
  ok-injective, ok-ne-err, length, inl, inr, Bool-cases,
}
use audite_db.Prelude.Assoc.{lookup, insert}
use audite_db.Prelude.Text.{Bytes}
use audite_db.Timeline.{Crypto}
use audite_db.Audit.Events.{Header}
use audite_db.Cas.{WriteAuditError}
use audite_db.Cas.Estimates.{ReplaceQuotaSnapshot}
use audite_db.Storage.{Reservation}
use audite_db.WorldStore.{
  WorldFile, OpenedWorldKind, WriteAuditResult, AuditVerificationCache, write_with_audit,
  append_with_audit,
}
use audite_db.WorldOps.{WriteError, Settings, Gauges, Core, Run, ReplaceRequest}
use audite_db.WorldOps.Steps.{continue, ◌>>=◌, ◌>>◌, modify, pure}
use audite_db.WorldOps.Durable.{
  set_gauges, cached_write_conn, cached_existing_write_conn, mark_existing, settle,
}
use audite_db.WorldOps.Guards.{transaction, unpoisoned, count_world}
use audite_db.WorldOps.Replace.{replace_transaction}
use audite_db.WorldOps.Append.{append_transaction}
use audite_db.WorldOps.Totals.{SameFiles}
use audite_db.WorldOps.Connections.{
  Connected, cached_write_conn-Connected, cached_existing_write_conn-Connected,
}

-- What the part of a write under its reservations has done: it has stopped with no gauge and no
-- counted file changed, or it has committed its transaction and settled the gauges.
pub data TransactionOutcome (world : Bytes)
    (tx : OpenedWorldKind
      → WorldFile
      → AuditVerificationCache
      → Result WriteAuditError (WriteAuditResult × WorldFile × AuditVerificationCache))
    (settled : WriteAuditResult → Gauges → Gauges) (core : Core)
    (out : Result WriteError WriteAuditResult × Core) : Type 0 where
  stopped :
      (e : WriteError) (after : Core)
      → out ≡ (err e, after)
      → after.gauges ≡ core.gauges
      → SameFiles world core.files after.files
      → TransactionOutcome world tx settled core out
  finished :
      (result : WriteAuditResult) (kind : OpenedWorldKind) (mid after : Core) (f f' : WorldFile)
      (cache : AuditVerificationCache)
      → out ≡ (ok result, after)
      → SameFiles world core.files mid.files
      → lookup world mid.files ≡ some f
      → tx kind f mid.verified_audit_worlds ≡ ok (result, f', cache)
      → after.files ≡ insert world f' mid.files
      → after.gauges ≡ settled result core.gauges
      → TransactionOutcome world tx settled core out

-- What a finished transaction has done.
pub record Finished (world : Bytes)
    (tx : OpenedWorldKind
      → WorldFile
      → AuditVerificationCache
      → Result WriteAuditError (WriteAuditResult × WorldFile × AuditVerificationCache))
    (settled : WriteAuditResult → Gauges → Gauges) (core after : Core) (result : WriteAuditResult)
    : Type 0 where
  pub kind : OpenedWorldKind
  pub files : List (Bytes × WorldFile)
  pub f : WorldFile
  pub f' : WorldFile
  pub verified : AuditVerificationCache
  pub cache : AuditVerificationCache
  pub same : SameFiles world core.files files
  pub found : lookup world files ≡ some f
  pub ran : tx kind f verified ≡ ok (result, f', cache)
  pub written : after.files ≡ insert world f' files
  pub settles : after.gauges ≡ settled result core.gauges

module _ (world : Bytes)
    (tx : OpenedWorldKind
      → WorldFile
      → AuditVerificationCache
      → Result WriteAuditError (WriteAuditResult × WorldFile × AuditVerificationCache))
    (settled : WriteAuditResult → Gauges → Gauges) (core : Core)
    (out : Result WriteError WriteAuditResult × Core) where
  pub TransactionOutcome-stopped :
      TransactionOutcome world tx settled core out
      → (e : WriteError) (after : Core) → out ≡ (err e, after)
      → (after.gauges ≡ core.gauges) × SameFiles world core.files after.files
  TransactionOutcome-stopped (stopped e' after' is g files) e after st =
      let same : after' ≡ after = ap (λ x. x.1) (sym is ∙ st) in
      (
        ap (λ x. x.gauges) (sym same) ∙ g,
        subst (λ x. SameFiles world core.files x.files) same files,
      )
  TransactionOutcome-stopped (finished r k mid after' f f' cache is s found t w g) e after st =
      let clash = ap (λ x. x.0) (sym is ∙ st) in absurd (ok-ne-err clash)

  pub TransactionOutcome-Finished :
      TransactionOutcome world tx settled core out
      → (result : WriteAuditResult) (after : Core) → out ≡ (ok result, after)
      → Finished world tx settled core after result
  TransactionOutcome-Finished (stopped e after' is g files) result after st =
      let clash = ap (λ x. x.0) (sym st ∙ is) in absurd (ok-ne-err clash)
  TransactionOutcome-Finished (finished r k mid after' f f' cache is s found t w g) result after
        st =
      let same : after' ≡ after = ap (λ x. x.1) (sym is ∙ st) in
      let one : r ≡ result = ok-injective (ap (λ x. x.0) (sym is ∙ st)) in
      record {
        kind = k;
        files = mid.files;
        f = f;
        f' = f';
        verified = mid.verified_audit_worlds;
        cache = cache;
        same = s;
        found = found;
        ran = t ∙ ap (λ x. ok (x, f', cache)) one;
        written = ap (λ x. x.files) (sym same) ∙ w;
        settles = ap (λ x. x.gauges) (sym same) ∙ g ∙ ap (λ x. settled x core.gauges) one;
      }

abbrev pub with_files : List (Bytes × WorldFile) → Core → Core
with_files files core = record {
  mem = core.mem;
  files = files;
  write_conns = core.write_conns;
  verified_audit_worlds = core.verified_audit_worlds;
  tombstones = core.tombstones;
  gauges = core.gauges;
  durable_world_count = core.durable_world_count;
  events = core.events;
}

module _ (world : Bytes) (w : Run)
    (tx : OpenedWorldKind
      → WorldFile
      → AuditVerificationCache
      → Result WriteAuditError (WriteAuditResult × WorldFile × AuditVerificationCache))
    (settled : WriteAuditResult → Gauges → Gauges) (core : Core)
    (conn : Result WriteError OpenedWorldKind × Core) (connected : Connected world core conn)
    (mark : Core → Core) (mark_files : (x : Core) → (mark x).files ≡ x.files)
    (mark_gauges : (x : Core) → (mark x).gauges ≡ x.gauges) (last : WriteAuditResult → Core → Core)
    (last_files : (r : WriteAuditResult) (x : Core) → (last r x).files ≡ x.files)
    (last_gauges : (r : WriteAuditResult) (x : Core) → (last r x).gauges ≡ x.gauges) where
  -- The steps from the connection on.
  abbrev pub from_connection : Result WriteError WriteAuditResult × Core
  from_connection =
      continue
        (λ kind. do
          unpoisoned w
          result ← transaction world mark (tx kind)
          modify (set_gauges (settled result))
          modify (last result)
          pure result)
        conn.0 conn.1

  pub from_connection-Outcome : TransactionOutcome world tx settled core from_connection
  from_connection-Outcome = elim (Result-cases conn.0) [
    | inr (e, h) ↦ rw h (stopped e conn.1 refl connected.gauges connected.files)
    | inl (kind, h) ↦ elim (Bool-cases w.poisoned) [
      | inl k ↦ rw (h, k) (stopped _ conn.1 refl connected.gauges connected.files)
      | inr k ↦ elim (Option-cases (lookup world conn.1.files)) [
        | inl absent ↦
            rw (h, k, absent, ◌>>=◌, transaction)
              (stopped _ conn.1 refl connected.gauges connected.files)
        | inr (f, found) ↦ elim (Result-cases (tx kind f conn.1.verified_audit_worlds)) [
          | inr (e, t) ↦
              rw (h, k, found, t, ◌>>=◌, transaction)
                (stopped _ conn.1 refl connected.gauges connected.files)
          | inl (done, t) ↦
              rw (h, k, found, t, ◌>>=◌, transaction)
                (finished done.0 kind conn.1 _ f done.1 done.2 refl connected.files found t
                  (last_files done.0 _ ∙ mark_files _)
                  (last_gauges done.0 _ ∙ ap (settled done.0) (mark_gauges _ ∙ connected.gauges)))
        ]
      ]
    ]
  ]

abbrev pub replace_tx :
    Crypto
    → Settings
    → Run
    → Bytes
    → ReplaceRequest
    → OpenedWorldKind
    → WorldFile
    → AuditVerificationCache
    → Result WriteAuditError (WriteAuditResult × WorldFile × AuditVerificationCache)
replace_tx c s w world req kind f cache =
    write_with_audit c (record { key = s.hmac_key; world = world }) s.retained_body_count w.times
      kind req.body req.content_type req.headers cache f

pub replace_transaction-Outcome :
    (c : Crypto) (s : Settings) (w : Run) (world : Bytes) (req : ReplaceRequest)
    (snapshot : ReplaceQuotaSnapshot) (pending : Reservation) (core : Core)
    → TransactionOutcome world
        (replace_tx c s w world req)
        (settle pending snapshot.candidate_cas_len snapshot.prunable_cas_len
          snapshot.previous_body_len
          (length req.body)
          (length req.body))
        core
        (replace_transaction c s w world req snapshot pending core)
unfolding replace_transaction
replace_transaction-Outcome c s w world req snapshot pending core =
    from_connection-Outcome world w (replace_tx c s w world req) _ core
      (cached_write_conn w world core) (cached_write_conn-Connected w world core)
      (mark_existing world) (λ x. refl) (λ x. refl) (λ result. count_world result.existed)
      (λ r x. refl) (λ r x. refl)

abbrev pub append_tx :
    Crypto
    → Settings
    → Run
    → Bytes
    → Bytes
    → Bytes
    → List Header
    → OpenedWorldKind
    → WorldFile
    → AuditVerificationCache
    → Result WriteAuditError (WriteAuditResult × WorldFile × AuditVerificationCache)
append_tx c s w world body content_type headers kind f cache =
    append_with_audit c (record { key = s.hmac_key; world = world }) s.retained_body_count w.times
      body content_type headers cache f

pub append_transaction-Outcome :
    (c : Crypto) (s : Settings) (w : Run) (world body : Bytes) (body_len : ℕ) (content_type : Bytes)
    (headers : List Header) (candidate prunable : ℕ) (pending : Reservation) (core : Core)
    → TransactionOutcome world
        (append_tx c s w world body content_type headers)
        (settle pending candidate prunable body_len
          (body_len + length body)
          (body_len + length body))
        core
        (append_transaction c s w world body body_len content_type headers candidate prunable
          pending core)
unfolding append_transaction
append_transaction-Outcome c s w world body body_len content_type headers candidate prunable pending
      core =
    from_connection-Outcome world w (append_tx c s w world body content_type headers) _ core
      (cached_existing_write_conn w world core) (cached_existing_write_conn-Connected w world core)
      (λ x. x) (λ x. refl) (λ x. refl) (λ result x. x) (λ r x. refl) (λ r x. refl)
