-- ===== src/Tests/Engine.antt =====
-- The theorems on internal/alerting/alerting.go, internal/domain and internal/checkstate, at
-- concrete values.
use pulse_pager.Prelude.{
  ℕ, arith, ◌≢◌, inr, ◌+◌, ◌*◌, ◌≤◌, ◌≡◌, ◌↔◌, ◌⊎◌, refl, Bool, true, false, none, some, List, [],
  ◌∷◌, pos, negsuc, count_where, map,
}
use pulse_pager.Domain.{CheckResult, AlertState, DownPolicy, hour}
use pulse_pager.Domain.Status.{PublicStatus, hidden}
use pulse_pager.Alerting.Engine.{
  nothing, open_incident, close_incident, recovery, down, apply, is_tighter, ssl_level,
}
use pulse_pager.Alerting.Table.{apply-action_iff, apply-notify_iff}
use pulse_pager.Alerting.Escalation.{
  warnings, DescendsFrom, warnings-DescendsFrom, warnings-connection_error,
}
use pulse_pager.Checkstate.{
  RegionState, Outcome, Phase, rollup, mark_scheduled, mark_running, mark_result, Hash,
}
use pulse_pager.Checkstate.Reports.{RegionReport, set_results, set_results-complete}
use pulse_pager.Checkstate.Rollup.{Report, reported, is_pass, Suffices, rollup-outcomes_iff}
use pulse_pager.Tests.{web_monitor, cert_monitor, check_of, failed_check, cert_incident, noon}

abbrev no_incident : AlertState
no_incident = record {
  consecutive_fails = 0;
  first_fail_at = none;
  open_incident = none;
  last_applied_result_id = none;
  ssl_warned_days = none;
}

-- An expiry incident on which the warning of seven days was sent.
abbrev warned_state : AlertState
warned_state = record no_incident {
  consecutive_fails = 1;
  first_fail_at = some noon;
  open_incident = some cert_incident;
  ssl_warned_days = some (pos 7);
}

-- A check at noon of a certificate that has so many hours left.
abbrev expiring : ℕ → CheckResult
expiring hours = check_of 2 noon false (some (noon + hours * hour))

abbrev unreachable : CheckResult
unreachable = check_of 2 noon false none

apply-action_iff_example :
    (((apply web_monitor failed_check no_incident).action ≡ open_incident)
      ↔ ((false ≡ false) × (false ≡ false) × (1 ≤ 0 + 1)))
    × (((apply web_monitor failed_check no_incident).action ≡ close_incident)
        ↔ ((false ≡ true) × (false ≡ true)))
apply-action_iff_example = apply-action_iff web_monitor failed_check no_incident

apply-notify_iff_example :
    (((apply cert_monitor (expiring 30) warned_state).notify
        ≡ some (record { type = recovery; warn_days = none }))
      ↔ ((apply cert_monitor (expiring 30) warned_state).action ≡ close_incident))
    × (((apply cert_monitor (expiring 30) warned_state).notify
          ≡ some (record { type = down; warn_days = some (ssl_level (expiring 30)) }))
        ↔ (((apply cert_monitor (expiring 30) warned_state).action ≡ open_incident)
            ⊎ ((apply cert_monitor (expiring 30) warned_state).renotify ≡ true)))
    × (((apply cert_monitor (expiring 30) warned_state).notify ≡ none) ↔ (
        ((apply cert_monitor (expiring 30) warned_state).action ≡ nothing)
        × ((apply cert_monitor (expiring 30) warned_state).renotify ≡ false)))
    × (((apply cert_monitor (expiring 30) warned_state).renotify ≡ true) ↔ (
        (false ≡ false)
        × (true ≡ true)
        × (true ≡ true)
        × (is_tighter (ssl_level (expiring 30)) (some (pos 7)) ≡ true)))
apply-notify_iff_example = apply-notify_iff cert_monitor (expiring 30) warned_state

warnings-DescendsFrom_example :
    DescendsFrom
      (some (pos 7))
      (warnings cert_monitor warned_state (expiring 60 ∷ expiring 20 ∷ []))
warnings-DescendsFrom_example =
    warnings-DescendsFrom cert_monitor warned_state (expiring 60 ∷ expiring 20 ∷ []) refl refl
      (refl, (refl, tt))

warnings-connection_error_example :
    warnings cert_monitor warned_state (unreachable ∷ expiring 60 ∷ expiring 20 ∷ [])
    ≡ negsuc 0 ∷ []
warnings-connection_error_example =
    warnings-connection_error cert_monitor warned_state 7 unreachable
      (expiring 60 ∷ expiring 20 ∷ []) refl refl refl refl refl (refl, (refl, tt))

abbrev page : List PublicStatus
page = PublicStatus.down ∷ hidden ∷ PublicStatus.operational ∷ []

abbrev outcome_of : Bool → Outcome
outcome_of healthy = record {
  was_healthy = healthy;
  outcome_status_code = none;
  outcome_latency_ms = none;
  outcome_failure_reason = none;
}

abbrev regions : List RegionState
regions = mark_result (outcome_of true) noon ∷ mark_scheduled noon ∷ []

abbrev reports : List Report
reports = (outcome_of true, noon) ∷ (outcome_of false, noon + hour) ∷ []

rollup-outcomes_iff_example :
    (v : Bool) × (rollup (map reported reports) DownPolicy.quorum ≡ (Phase.complete, some v))
    × ((v ≡ true) ↔ Suffices DownPolicy.quorum (count_where is_pass reports) 2)
rollup-outcomes_iff_example =
    rollup-outcomes_iff (outcome_of true, noon) ((outcome_of false, noon + hour) ∷ [])
      DownPolicy.quorum

-- One region has its job, and the check of another one is running.
abbrev begun : Hash
begun = ("eu-central", mark_scheduled noon) ∷ ("us-east", mark_running noon) ∷ []

abbrev two_reports : List RegionReport
two_reports =
    ("us-east", outcome_of true, noon + hour) ∷ ("eu-central", outcome_of false, noon) ∷ []

set_results-complete_example :
    let shown = rollup (map (λ e. e.1) (set_results two_reports begun)) DownPolicy.all in
    (shown.0 ≡ Phase.complete) × (shown.1 ≢ none)
set_results-complete_example =
    set_results-complete two_reports begun DownPolicy.all (omega arith) (inr refl, (inr refl, tt))
