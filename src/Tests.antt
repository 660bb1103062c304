-- ===== src/Tests.antt =====
-- Concrete values, and in the modules below the theorems at these values.
pub mod Alerting
pub mod Engine
pub mod Scheduler
pub mod Access
pub mod Sessions
pub mod Notifier
pub mod Delivery
pub mod Payments
pub mod Checks
use pulse_pager.Prelude.{ℕ, codes, Bool, true, false, Option, none, some, List, [], ◌∷◌, ◌*◌}
use pulse_pager.Domain.{
  Time, Monitor, MonitorType, DownPolicy, FailureReason, CheckResult, Incident, hour,
}
use pulse_pager.Store.Db.{MonitorRow, Db, works, Link}
use pulse_pager.Alerting.Service.{CheckResultEvent, Env}

abbrev pub monitor_of : MonitorType → ℕ → Monitor
monitor_of type id = record {
  id = id;
  org_id = 7;
  type = type;
  name = "front page";
  url = "https://example.com";
  method = "GET";
  headers = [];
  body = "";
  expected_status_codes = "2xx";
  timeout_seconds = 10;
  interval_seconds = 60;
  enabled = true;
  max_latency_ms = none;
  body_contains = none;
  failure_threshold = 1;
  regions = "eu-central" ∷ "us-east" ∷ [];
  down_policy = DownPolicy.any;
  channel_ids = 4 ∷ [];
  created_at = 0;
  updated_at = 0;
}

abbrev pub web_monitor : Monitor
web_monitor = monitor_of MonitorType.http 1

abbrev pub cert_monitor : Monitor
cert_monitor = monitor_of MonitorType.ssl 2

abbrev pub noon : Time
noon = 12 * hour

abbrev pub check_of : ℕ → Time → Bool → Option Time → CheckResult
check_of monitor_id at healthy expires_at = record {
  id = 0;
  org_id = 7;
  monitor_id = monitor_id;
  region = "eu-central";
  scheduled_at = at;
  checked_at = at;
  healthy = healthy;
  failure_reason = some FailureReason.timeout;
  status_code = none;
  latency_ms = none;
  error_text = none;
  cert_expires_at = expires_at;
  snapshot = none;
  cert_info = none;
}

abbrev pub failed_check : CheckResult
failed_check = check_of 1 noon false none

abbrev pub event_of : CheckResult → CheckResultEvent
event_of r = record {
  job_id = codes "1:eu-central:43200";
  scheduled_at = r.scheduled_at;
  result = r;
}

abbrev pub row_of : Monitor → MonitorRow
row_of m = record {
  monitor = m;
  consecutive_fails = 0;
  first_fail_at = none;
  last_applied_result_id = none;
  ssl_warned_days = none;
}

-- Two monitors that were never checked.
abbrev pub fresh_db : Db
fresh_db = record {
  monitors = row_of web_monitor ∷ row_of cert_monitor ∷ [];
  check_results = [];
  incidents = [];
  result_seq = 1;
  incident_seq = 1;
}

abbrev pub empty_db : Db
empty_db = record {
  monitors = [];
  check_results = [];
  incidents = [];
  result_seq = 1;
  incident_seq = 1;
}

abbrev pub env_of : Link → Bool → Env
env_of applies produces = record {
  upserts = works;
  gets_monitor = works;
  gets_state = works;
  applies = applies;
  marshals = true;
  produces = produces;
  sent_at = noon;
}

-- An incident of the ssl monitor.
abbrev pub cert_incident : Incident
cert_incident = record {
  id = 3;
  org_id = 7;
  monitor_id = 2;
  started_at = noon;
  ended_at = none;
  cause_reason = FailureReason.cert_expiring_soon;
  close_reason = none;
  closed_by = none;
  first_result_id = none;
}
