-- ===== src/FileOps/Draining.antt =====
-- When `shutdown_and_wait` of core/src/state.rs has returned, no file operation runs or will run.
use audite_db.Prelude.{◌≡◌, ◌≢◌, refl, sym, ◌∙◌, true, arith}
use audite_db.FileOps.{
  passed, not_called, returned, FileOpGate, new_gate, Step, begin_lock, begin_refused, begin_passed,
  begin_admitted, permit_dropped, shutdown_stored, shutdown_returned, Steps, done, next,
}

-- What holds at every moment.
record Sound (s : FileOpGate) : Type 0 where
  counted : s.active ≡ s.permits
  raised : s.shutdown ≢ not_called → s.shutting_down ≡ true
  drained : s.shutdown ≡ returned → (s.permits ≡ 0) × (s.holder ≢ passed)

step-Sound : (s t : FileOpGate) → Step s t → Sound s → Sound t
step-Sound _ _ (begin_lock flag active sd permits) v = record {
  counted = v.counted;
  raised = v.raised;
  drained = λ r. ((v.drained r).0, λ e. cc);
}
step-Sound _ _ (begin_refused active sd permits) v = record {
  counted = v.counted;
  raised = v.raised;
  drained = λ r. ((v.drained r).0, λ e. cc);
}
step-Sound _ _ (begin_passed active sd permits) v = record {
  counted = v.counted;
  raised = v.raised;
  drained = λ r. absurd (cc (v.raised (λ e. cc)));
}
step-Sound _ _ (begin_admitted flag active sd permits room) v = record {
  counted = omega (arith, v.counted, room);
  raised = v.raised;
  drained = λ r. absurd ((v.drained r).1 refl);
}
step-Sound _ _ (permit_dropped flag active sd permits) v = record {
  counted = omega (arith, v.counted);
  raised = v.raised;
  drained = λ r. absurd (omega (arith, (v.drained r).0));
}
step-Sound _ _ (shutdown_stored flag active holder permits) v = record {
  counted = v.counted;
  raised = λ e. refl;
  drained = λ r. absurd (cc);
}
step-Sound _ _ (shutdown_returned flag permits) v = record {
  counted = v.counted;
  raised = λ e. v.raised (λ n. cc);
  drained = λ r. (sym v.counted, λ e. cc);
}

Steps-Sound : (s t : FileOpGate) → Steps s t → Sound s → Sound t
Steps-Sound s _ (done _) v = v
Steps-Sound s u (next _ t _ first rest) v = Steps-Sound t u rest (step-Sound s t first v)

new_gate-Sound : Sound new_gate
new_gate-Sound = record {
  counted = refl;
  raised = λ e. absurd (e refl);
  drained = λ r. absurd (cc);
}

-- Once shutdown has returned, whatever the threads did before and do after, no file operation holds
-- a permit and none is about to get one.
pub shutdown-drained :
    (s : FileOpGate)
    → Steps new_gate s
    → s.shutdown ≡ returned
    → (s.permits ≡ 0) × (s.active ≡ 0) × (s.holder ≢ passed)
shutdown-drained s run r =
    let v = Steps-Sound new_gate s run new_gate-Sound in
    let (none_left, none_near) = v.drained r in (none_left, v.counted ∙ none_left, none_near)
