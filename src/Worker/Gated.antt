-- ===== src/Worker/Gated.antt =====
-- internal/worker/worker.go, handle: what reaches the bus, and whose responses are stored.
use pulse_pager.Prelude.{
  ◌≡◌, refl, ap, ◌∙◌, Bool, true, false, not, ◌&&◌, Option, some, is_some, if◌then◌else◌, arith,
  subst,
}
use pulse_pager.Domain.{CheckResult}
use pulse_pager.Scheduler.{CheckJob}
use pulse_pager.Checker.Verdict.{Reports, first_fault}
use pulse_pager.Checker.Certificate.{check_faults, check-Reports}
use pulse_pager.Checker.Kept.{check-Keeps}
use pulse_pager.Alerting.Service.{CheckResultEvent}
use pulse_pager.Worker.{
  Env, World, Handled, set_running, set_result, result_of, emit, save_failure, save_cert, handle,
}

-- The event is the verdict on the job's monitor, from the job's region and for its organisation.
pub record Answers (env : Env) (job : CheckJob) (ev : CheckResultEvent) : Type 0 where
  pub same_job : ev.job_id ≡ job.job_id
  pub same_time : ev.scheduled_at ≡ job.scheduled_at
  pub same_monitor : ev.result.monitor_id ≡ job.monitor.id
  pub same_org : ev.result.org_id ≡ job.org_id
  pub same_region : ev.result.region ≡ job.region
  pub verdict :
      Reports ev.result (first_fault (check_faults env.probe env.tls job.monitor job.monitor.type))

-- The end of handle, given what emit returns.
abbrev ended : Option CheckResultEvent × Bool → World → World → Handled
ended x marked saved =
    if x.1
    then record { world = marked; emitted = x.0; failed = x.1 }
    else record { world = saved; emitted = x.0; failed = x.1 }

module _ (env : Env) (job : CheckJob) (w : World) where
  event_of : CheckResultEvent
  event_of = record {
    job_id = job.job_id;
    scheduled_at = job.scheduled_at;
    result = result_of env job;
  }

  emit-takes :
      env.marshals ≡ true
      → env.produces ≡ true
      → ((emit env job (result_of env job)).0 ≡ some event_of)
        × ((emit env job (result_of env job)).1 ≡ false)
  unfolding emit event_of
  emit-takes marshals produces = ground arith

  handle-emit :
      ((handle env (some job) w).emitted ≡ (emit env job (result_of env job)).0)
      × ((handle env (some job) w).failed ≡ (emit env job (result_of env job)).1)
  unfolding handle
  handle-emit = by_case (emit env job (result_of env job))
    where
      result : CheckResult
      result = result_of env job

      marked : World
      marked = set_result env job result (set_running env job w)

      saved : World
      saved = save_cert env result (save_failure env result marked)

      by_case :
          (x : Option CheckResultEvent × Bool)
          → ((ended x marked saved).emitted ≡ x.0) × ((ended x marked saved).failed ≡ x.1)
      by_case (e, true) = (refl, refl)
      by_case (e, false) = (refl, refl)

  set_running-failures : (set_running env job w).failures ≡ w.failures
  unfolding set_running
  set_running-failures = ground arith

  set_result-failures :
      (r : CheckResult) (v : World) → (set_result env job r v).failures ≡ v.failures
  unfolding set_result
  set_result-failures r v = ground arith

  save_cert-failures : (r : CheckResult) (v : World) → (save_cert env r v).failures ≡ v.failures
  unfolding save_cert
  save_cert-failures r v = ground arith

  save_failure-none :
      (r : CheckResult) (v : World) → is_some r.snapshot ≡ false → save_failure env r v ≡ v
  unfolding save_failure
  save_failure-none r v h = ground arith

  -- If the event can be marshalled and the producer takes it, handle puts on the bus an event that
  -- carries the job's id and time and a result of the job's monitor, organisation and region, with
  -- the verdict of the check, and it returns no error.
  pub handle-Answers :
      env.marshals ≡ true
      → env.produces ≡ true
      → (ev : CheckResultEvent) × ((handle env (some job) w).emitted ≡ some ev)
        × ((handle env (some job) w).failed ≡ false)
        × Answers env job ev
  unfolding event_of result_of
  handle-Answers marshals produces =
      let (same_event, same_end) = handle-emit in
      let (sent, fine) = emit-takes marshals produces in
      let (same_monitor, clean) =
        check-Keeps env.probe env.tls job.monitor (env.failure_snapshot job.org_id) in
      (
        event_of,
        same_event ∙ sent,
        same_end ∙ fine,
        record {
          same_job = refl;
          same_time = refl;
          same_monitor = same_monitor;
          same_org = refl;
          same_region = refl;
          verdict = check-Reports env.probe env.tls job.monitor (env.failure_snapshot job.org_id);
        },
      )

  ended-failures :
      (x : Option CheckResultEvent × Bool) (a b : World)
      → a.failures ≡ w.failures
      → b.failures ≡ w.failures
      → (ended x a b).world.failures ≡ w.failures
  ended-failures (e, true) a b h k = h
  ended-failures (e, false) a b h k = k

  -- An organisation that is not entitled to it never has a response stored.
  pub handle-ungated :
      env.failure_snapshot job.org_id ≡ false
      → (handle env (some job) w).world.failures ≡ w.failures
  unfolding handle result_of
  handle-ungated off =
      let result = result_of env job in
      let (same, clean) =
        check-Keeps env.probe env.tls job.monitor (env.failure_snapshot job.org_id) in
      let none_kept : is_some result.snapshot ≡ false =
        subst (λ c. not c && is_some result.snapshot ≡ false) off clean in
      let marked = set_result env job result (set_running env job w) in
      let kept = set_result-failures result (set_running env job w) ∙ set_running-failures in
      let saved : (save_cert env result (save_failure env result marked)).failures ≡ w.failures =
        save_cert-failures result (save_failure env result marked)
        ∙ ap (λ v. v.failures) (save_failure-none result marked none_kept)
        ∙ kept in
      ended-failures (emit env job result) marked _ kept saved
