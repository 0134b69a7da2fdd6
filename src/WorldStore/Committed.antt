-- ===== src/WorldStore/Committed.antt =====
-- The steps of a transaction of core/src/world.rs that commits.
use audite_db.WorldStore.Openings.{open_format-events, open_format-Opened}
use audite_db.Prelude.{
  ℕ, ◌+◌, ◌≡◌, refl, sym, ap, ◌∙◌, subst, true, Option, none, some, List, [], ◌∷◌, ◌++◌, Result, ok,
  map_err, ◌>>=◌, >>=-eq-ok, ok-injective, length, length-append, is_some, arith, if◌then◌else◌,
}
use audite_db.Prelude.Text.{Bytes}
use audite_db.Timeline.{Crypto}
use audite_db.Audit.Events.{AuditEventKind, put, append, Header}
use audite_db.Audit.Retention.{WorldDb}
use audite_db.Audit.Access.{Place}
use audite_db.Audit.Append.{AppendedAuditRow, RetainedCasBody}
use audite_db.Audit.Append.Entries.{WellFormed}
use audite_db.Cas.{in_sqlite, retain_body}
use audite_db.Cas.Estimates.{read_body}
use audite_db.WorldStore.{
  WorldFile, OpenedWorldKind, existing, AuditVerificationCache, Times, WriteAuditResult, Opening,
  open_format, verify_appendable_world, insert_headers, set_body, finish_body, write_with_audit,
  append_with_audit, existed_before, after_gate,
}
use audite_db.WorldStore.Outcomes.{Finished, finish_body-Finished, is_body_kind}

-- The steps that a committed write has gone through.
pub record Committed (c : Crypto) (p : Place) (n : ℕ) (kind : AuditEventKind) (t : Times)
    (opened : OpenedWorldKind) (body ct : Bytes) (headers : List Header)
    (cache cache' : AuditVerificationCache) (f f' : WorldFile) (result : WriteAuditResult)
    : Type 0 where
  pub opening : Opening
  pub formatted : Option AppendedAuditRow × WorldDb
  pub retained : RetainedCasBody × audite_db.Prelude.Bool × WorldDb
  pub gate : verify_appendable_world c p cache f opened ≡ ok opening
  pub opens : open_format c opening t.format_at f.db ≡ ok formatted
  pub retains : retain_body c p.world body formatted.1 ≡ ok retained
  pub finishes :
      finish_body c opening.chain n kind t.body_at retained.0 ct headers (set_body body retained.2)
      ≡ ok (result.pruned_cas, result.body_event, f'.db)
  pub inserted : result.cas_body_inserted ≡ retained.1
  pub format_event : result.format_event ≡ formatted.0
  pub existed : result.existed ≡ existed_before opened
  pub cached : cache' ≡ after_gate opening p.world cache

pub write_with_audit-Committed :
    (c : Crypto) (p : Place) (n : ℕ) (t : Times) (opened : OpenedWorldKind) (body ct : Bytes)
    (headers : List Header) (cache cache' : AuditVerificationCache) (f f' : WorldFile)
    (result : WriteAuditResult)
    → write_with_audit c p n t opened body ct headers cache f ≡ ok (result, f', cache')
    → Committed c p n put t opened body ct headers cache cache' f f' result
unfolding write_with_audit
write_with_audit-Committed c p n t opened body ct headers cache cache' f f' result h =
    let (o, h1, h2) = >>=-eq-ok (verify_appendable_world c p cache f opened) _ h in
    let (formatted, h3, h4) = >>=-eq-ok (open_format c o t.format_at f.db) _ h2 in
    let (kept, h5, h6) = >>=-eq-ok (retain_body c p.world body formatted.1) _ h4 in
    let (inserted, h7, h8) = >>=-eq-ok (in_sqlite (insert_headers headers [])) _ h6 in
    let (finished, h9, h10) =
      >>=-eq-ok (finish_body c o.chain n put t.body_at kept.0 ct headers (set_body body kept.2)) _
        h8 in
    let e = ok-injective h10 in
    record {
      opening = o;
      formatted = formatted;
      retained = kept;
      gate = h1;
      opens = h3;
      retains = h5;
      finishes = h9 ∙ ap (λ x. ok (x.0.pruned_cas, x.0.body_event, x.1.db)) e;
      inserted = ap (λ x. x.0.cas_body_inserted) (sym e);
      format_event = ap (λ x. x.0.format_event) (sym e);
      existed = ap (λ x. x.0.existed) (sym e);
      cached = ap (λ x. x.2) (sym e);
    }

pub append_with_audit-Committed :
    (c : Crypto) (p : Place) (n : ℕ) (t : Times) (body ct : Bytes) (headers : List Header)
    (cache cache' : AuditVerificationCache) (f f' : WorldFile) (result : WriteAuditResult)
    → WellFormed f.db
    → append_with_audit c p n t body ct headers cache f ≡ ok (result, f', cache')
    → (current : Bytes) × (f.db.stage_body ≡ some current)
      × Committed c p n append t existing (current ++ body) ct headers cache cache' f f' result
unfolding append_with_audit read_body
append_with_audit-Committed c p n t body ct headers cache cache' f f' result w h =
    let (o, h1, h2) = >>=-eq-ok (verify_appendable_world c p cache f existing) _ h in
    let (formatted, h3, h4) = >>=-eq-ok (open_format c o t.format_at f.db) _ h2 in
    let (current, h5, h6) = >>=-eq-ok (in_sqlite (read_body formatted.1)) _ h4 in
    let (kept, h7, h8) = >>=-eq-ok (retain_body c p.world (current ++ body) formatted.1) _ h6 in
    let (finished, h9, h10) =
      >>=-eq-ok
        (finish_body c o.chain n append t.body_at kept.0 ct headers
          (set_body (current ++ body) kept.2))
        _ h8 in
    let e = ok-injective h10 in
    let opens = open_format-Opened c o t.format_at f.db formatted.1 formatted.0 w h3 in
    (
      current,
      sym opens.body ∙ read_body-eq formatted.1.stage_body current h5,
      record {
        opening = o;
        formatted = formatted;
        retained = kept;
        gate = h1;
        opens = h3;
        retains = h7;
        finishes = h9 ∙ ap (λ x. ok (x.0.pruned_cas, x.0.body_event, x.1.db)) e;
        inserted = ap (λ x. x.0.cas_body_inserted) (sym e);
        format_event = ap (λ x. x.0.format_event) (sym e);
        existed = ap (λ x. x.0.existed) (sym e);
        cached = ap (λ x. x.2) (sym e);
      },
    )
  where
    read_body-eq :
        (stored : Option Bytes) (current : Bytes)
        → in_sqlite (audite_db.Prelude.ok_or stored audite_db.Audit.Retention.invalid_column_type)
          ≡ ok current
        → stored ≡ some current
    read_body-eq none current e = absurd (cc)
    read_body-eq (some b) current e = ap some (ok-injective e)

-- The tables before and after a committed write.
module _ (c : Crypto) (p : Place) (n : ℕ) (kind : AuditEventKind) (t : Times)
    (opened : OpenedWorldKind) (body ct : Bytes) (headers : List Header)
    (cache cache' : AuditVerificationCache) (f f' : WorldFile) (result : WriteAuditResult)
    (is_body : is_body_kind kind ≡ true) (w : WellFormed f.db)
    (m : Committed c p n kind t opened body ct headers cache cache' f f' result) where
  pub Committed-Finished :
      Finished c n body f.db m.formatted.1 f'.db result.cas_body_inserted result.pruned_cas
  Committed-Finished =
      subst (λ b. Finished c n body f.db m.formatted.1 f'.db b result.pruned_cas) (sym m.inserted)
        (finish_body-Finished c m.opening.chain n kind t.body_at p.world body ct headers f.db
          m.formatted.1 m.retained.2 f'.db m.retained.0 m.retained.1 result.pruned_cas
          result.body_event is_body w
          (open_format-Opened c m.opening t.format_at f.db m.formatted.1 m.formatted.0 w m.opens)
          m.retains m.finishes)

  -- One event more, or two of a genesis.
  pub Committed-events :
      length f'.db.events ≡ length f.db.events + 1 + (if is_some result.format_event then 1 else 0)
  Committed-events =
      let d = Committed-Finished in
      let e = open_format-events c m.opening t.format_at f.db m.formatted.1 m.formatted.0 m.opens in
      omega (
        arith,
        ap length d.counted,
        length-append (f.db.events ++ d.write.extra) (d.write.row ∷ []),
        ap length d.from_opened,
        e,
        ap {B = ℕ} (λ o. if is_some o then 1 else 0) m.format_event,
      )
