-- ===== src/Tests/Checks.antt =====
-- The theorems on internal/checker/checker.go and ssl.go and internal/worker/worker.go, at
-- concrete checks.
use pulse_pager.Prelude.{
  length, ◌+◌, ◌*◌, ◌≡◌, refl, true, false, none, some, [], ◌∷◌, str_eq, ◌==◌, if◌then◌else◌,
}
use pulse_pager.Domain.{Monitor, CertInfo, FailureReason}
use pulse_pager.Checker.{
  Resolution, Reply, Body, Probe, snapshot_of, is_mismatch, is_too_slow, check_http,
}
use pulse_pager.StatusCodes.{parse_status_codes, parse_part, matches}
use pulse_pager.Domain.SslWarn.{day, ssl_warn_level}
use pulse_pager.Checker.Ssl.{Handshake, Verification, Tls, ssl_host_port, check}
use pulse_pager.Checker.Verdict.{Reports}
use pulse_pager.Checker.Certificate.{check-Reports}
use pulse_pager.Scheduler.{CheckJob, job_for}
use pulse_pager.Alerting.Service.{CheckResultEvent}
use pulse_pager.Worker.{Env, World, handle}
use pulse_pager.Worker.Gated.{Answers, handle-Answers, handle-ungated}
use pulse_pager.Tests.{web_monitor, cert_monitor, noon}

-- A monitor of a page that is to say so within two seconds.
abbrev page_monitor : Monitor
page_monitor = record web_monitor { max_latency_ms = some 2000; body_contains = some "all is well" }

-- The page is late, and is another one.
abbrev late_page : Probe
late_page = record {
  block_private_networks = true;
  max_error_text_len = 20;
  resolution = Resolution.resolved;
  build_error = none;
  reply = Reply.response 204;
  read_body = Body.body "we are closed" false;
  headers = [];
  latency = 2001;
  now = noon;
  trim_space = λ s. s;
  contains = str_eq;
}

-- There is no answer before the deadline.
abbrev silence : Probe
silence = record late_page {
  reply = Reply.refused (record { is_timeout = true; text = "context deadline exceeded" });
}

silence_test : (check_http silence page_monitor true).error_text ≡ some "context deadline exc"
unfolding check_http
silence_test = refl

late_page_test :
    (check_http late_page page_monitor true).snapshot
    ≡ some (snapshot_of late_page 204 late_page.read_body)
unfolding check_http is_mismatch parse_status_codes parse_part matches is_too_slow
late_page_test = refl

-- A certificate that ends on the seventh day.
abbrev week_left : CertInfo
week_left = record {
  subject = "example.com";
  issuer = "an authority";
  not_before = 0;
  not_after = noon + 7 * day;
  dns_names = [];
  serial = "1";
}

abbrev shows_week_left : Tls
shows_week_left = record {
  parse_url = λ s. some ("example.com", "");
  split_host_port = λ s. none;
  handshake = Handshake.connected (week_left ∷ []);
  verify = λ cert. Verification.valid;
  expired_on = λ at. "certificate expired";
  expires_in =
      λ days at. if days == 7 then "certificate expires in 7 days" else "certificate expires";
}

week_left_test :
    (check late_page shows_week_left cert_monitor false).error_text
    ≡ some "certificate expires in 7 days"
unfolding check ssl_warn_level
week_left_test = refl

week_left_reason :
    Reports
      (check late_page shows_week_left cert_monitor false)
      (some FailureReason.cert_expiring_soon)
unfolding ssl_host_port
week_left_reason = check-Reports late_page shows_week_left cert_monitor false

check-Reports_example :
    Reports
      (check late_page shows_week_left page_monitor true)
      (some FailureReason.latency_exceeded)
unfolding is_mismatch parse_status_codes parse_part matches is_too_slow
check-Reports_example = check-Reports late_page shows_week_left page_monitor true

abbrev free_plan : Env
free_plan = record {
  probe = late_page;
  tls = shows_week_left;
  failure_snapshot = λ org. false;
  has_state = true;
  sets_running = true;
  running_at = noon;
  sets_result = true;
  result_at = noon + 1;
  marshals = true;
  produces = true;
  saves_failure = true;
  saves_cert = true;
}

abbrev page_job : CheckJob
page_job = job_for page_monitor noon "us-east"

abbrev untouched : World
untouched = record { live = λ k r. none; failures = []; certs = [] }

-- With a plan that stores responses, the late page is stored.
paid_plan_test :
    length
      (handle
        (record free_plan { failure_snapshot = λ org. true })
        (some page_job)
        untouched).world.failures
    ≡ 1
unfolding handle is_mismatch parse_status_codes parse_part matches is_too_slow
paid_plan_test = refl

handle-ungated_example : (handle free_plan (some page_job) untouched).world.failures ≡ []
handle-ungated_example = handle-ungated free_plan page_job untouched refl

handle-Answers_example :
    (ev : CheckResultEvent) × ((handle free_plan (some page_job) untouched).emitted ≡ some ev)
    × ((handle free_plan (some page_job) untouched).failed ≡ false)
    × Answers free_plan page_job ev
handle-Answers_example = handle-Answers free_plan page_job untouched refl refl
