-- ===== src/Worker.antt =====
-- internal/worker/worker.go: handle, and the rows it writes by internal/store/monitors.go. An Env
-- says what the world does during one call: what a check is answered, what the resolver of
-- entitlements says, and which of the writes and sends succeed. Metrics, spans and log lines are
-- left out, and so is the lifetime of the live state.
pub mod Gated
use pulse_pager.Prelude.{
  ℕ, String, Bool, true, false, ◌&&◌, not, Option, none, some, List, [], ◌∷◌, str_eq, ◌==◌,
  if◌then◌else◌,
}
use pulse_pager.Domain.{Time, Monitor, CheckResult, ResponseSnapshot, CertInfo}
use pulse_pager.Checkstate.{RegionState, Outcome, mark_running, mark_result}
use pulse_pager.Scheduler.{CheckJob}
use pulse_pager.Checker.{Probe}
use pulse_pager.Checker.Ssl.{Tls, check}
use pulse_pager.Alerting.Service.{CheckResultEvent}

pub record Env : Type 0 where
  pub probe : Probe
  pub tls : Tls
  -- r.ents.For(orgID).FailureSnapshot
  pub failure_snapshot : ℕ → Bool
  -- r.state != nil
  pub has_state : Bool
  -- Redis takes the state, at a time.
  pub sets_running : Bool
  pub running_at : Time
  pub sets_result : Bool
  pub result_at : Time
  pub marshals : Bool
  pub produces : Bool
  -- the transactions of the two rows
  pub saves_failure : Bool
  pub saves_cert : Bool

pub record FailureRow : Type 0 where
  pub monitor_id : ℕ
  pub org_id : ℕ
  pub checked_at : Time
  pub snapshot : ResponseSnapshot

pub record CertRow : Type 0 where
  pub monitor_id : ℕ
  pub org_id : ℕ
  pub checked_at : Time
  pub cert : CertInfo

-- The live state by monitor and region, monitor_last_failure and monitor_cert.
pub record World : Type 0 where
  pub live : ℕ → String → Option RegionState
  pub failures : List FailureRow
  pub certs : List CertRow

pub record Handled : Type 0 where
  pub world : World
  pub emitted : Option CheckResultEvent
  pub failed : Bool

-- INSERT ... ON CONFLICT (monitor_id) DO UPDATE
abbrev put_failure : FailureRow → List FailureRow → List FailureRow
put_failure row [] = row ∷ []
put_failure row (r ∷ rs) =
    if r.monitor_id == row.monitor_id then row ∷ rs else r ∷ put_failure row rs

abbrev put_cert : CertRow → List CertRow → List CertRow
put_cert row [] = row ∷ []
put_cert row (r ∷ rs) = if r.monitor_id == row.monitor_id then row ∷ rs else r ∷ put_cert row rs

-- writeRegion, if Redis takes it
abbrev write_region : Bool → ℕ → String → RegionState → World → World
write_region takes id region rs w =
    if takes
    then record w { live = λ k r. if k == id && str_eq r region then some rs else w.live k r }
    else w

-- markRunning
unfoldable pub set_running : Env → CheckJob → World → World
unfolding mark_running
set_running env job w =
    write_region (env.has_state && env.sets_running) job.monitor.id job.region
      (mark_running env.running_at) w

abbrev outcome_of : CheckResult → Outcome
outcome_of r = record {
  was_healthy = r.healthy;
  outcome_status_code = r.status_code;
  outcome_latency_ms = r.latency_ms;
  outcome_failure_reason = r.failure_reason;
}

-- markResult
unfoldable pub set_result : Env → CheckJob → CheckResult → World → World
unfolding mark_result
set_result env job result w =
    write_region (env.has_state && env.sets_result) job.monitor.id job.region
      (mark_result (outcome_of result) env.result_at) w

-- UpsertMonitorLastFailure, if there is a snapshot
unfoldable pub save_failure : Env → CheckResult → World → World
save_failure env r w = elim r.snapshot [
  | none ↦ w
  | some snap ↦
      if env.saves_failure
      then record w {
        failures =
            put_failure
              (record {
                monitor_id = r.monitor_id;
                org_id = r.org_id;
                checked_at = r.checked_at;
                snapshot = snap;
              })
              w.failures;
      }
      else w
]

-- UpsertMonitorCert, if there is a certificate
unfoldable pub save_cert : Env → CheckResult → World → World
save_cert env r w = elim r.cert_info [
  | none ↦ w
  | some cert ↦
      if env.saves_cert
      then record w {
        certs =
            put_cert
              (record {
                monitor_id = r.monitor_id;
                org_id = r.org_id;
                checked_at = r.checked_at;
                cert = cert;
              })
              w.certs;
      }
      else w
]

-- The check, and what handle adds to its result.
unfoldable pub result_of : Env → CheckJob → CheckResult
unfolding check
result_of env job = record (check env.probe env.tls job.monitor (env.failure_snapshot job.org_id)) {
  org_id = job.org_id;
  region = job.region;
}

-- emit: the event that reaches the bus, and whether handle returns an error
unfoldable pub emit : Env → CheckJob → CheckResult → Option CheckResultEvent × Bool
emit env job result =
    if not env.marshals
    then (none, false)
    else if env.produces
    then (
      some (record { job_id = job.job_id; scheduled_at = job.scheduled_at; result = result }),
      false,
    )
    else (none, true)

-- handle, on a payload that has been read, or not at all.
unfoldable pub handle : Env → Option CheckJob → World → Handled
unfolding set_running set_result save_failure save_cert result_of emit
handle env none w = record { world = w; emitted = none; failed = false }
handle env (some job) w =
    let result = result_of env job in
    let marked = set_result env job result (set_running env job w) in
    let (emitted, failed) = emit env job result in
    if failed then record { world = marked; emitted = emitted; failed = failed } else record {
      world = save_cert env result (save_failure env result marked);
      emitted = emitted;
      failed = failed;
    }
