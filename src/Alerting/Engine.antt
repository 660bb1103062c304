-- ===== src/Alerting/Engine.antt =====
-- internal/alerting/alerting.go: the pure state machine. A monitor, a check result and the alert
-- state give a Decision; nothing is stored and no clock is read. `consecutive_fails` is read from a
-- 32-bit column, so adding 1 to it does not wrap a Go int.
use pulse_pager.Prelude.{
  ℕ, ℤ, pos, negsuc, ◌+◌, Bool, true, false, Option, none, some, ◌==◌, ltb, ltb_ℤ, is_some, ◌&&◌,
  if◌then◌else◌,
}
use pulse_pager.Domain.{
  Time, zero_time, Monitor, CheckResult, AlertState, FailureReason, CloseReason, is_ssl,
}
use pulse_pager.Domain.SslWarn.{ssl_warn_level}

pub data Action : Type 0 where
  nothing open_incident close_incident : Action

pub data NotifyEventType : Type 0 where
  down recovery : NotifyEventType

pub record NotifyEvent : Type 0 where
  pub type : NotifyEventType
  pub warn_days : Option ℤ

pub record Decision : Type 0 where
  pub action : Action
  pub new_consecutive : ℕ
  pub new_first_fail_at : Option Time
  pub incident_started_at : Time
  pub cause_reason : FailureReason
  pub incident_ended_at : Time
  pub close_reason : CloseReason
  pub renotify : Bool
  pub new_ssl_warned_days : Option ℤ
  pub notify : Option NotifyEvent

-- A Decision literal that names no field but the counters: the others have their zero values.
abbrev pub counters_only : ℕ → Option Time → Decision
counters_only consecutive first_fail_at = record {
  action = nothing;
  new_consecutive = consecutive;
  new_first_fail_at = first_fail_at;
  incident_started_at = zero_time;
  cause_reason = FailureReason.unset;
  incident_ended_at = zero_time;
  close_reason = CloseReason.unset;
  renotify = false;
  new_ssl_warned_days = none;
  notify = none;
}

-- The warning level of an ssl result, -1 when no expiry is known.
unfoldable pub ssl_level : CheckResult → ℤ
ssl_level res = elim res.cert_expires_at [
  | none ↦ negsuc 0
  | some expires_at ↦ ssl_warn_level expires_at res.checked_at
]

unfoldable pub apply_healthy : CheckResult → AlertState → Decision
apply_healthy res state =
    let d = counters_only 0 none in
    if is_some state.open_incident
    then record d {
      action = close_incident;
      incident_ended_at = res.checked_at;
      close_reason = CloseReason.recovered;
      notify = some (record { type = recovery; warn_days = none });
    }
    else d

-- `state.SSLWarnedDays == nil || level < *state.SSLWarnedDays`
abbrev pub is_tighter : ℤ → Option ℤ → Bool
is_tighter level none = true
is_tighter level (some warned) = ltb_ℤ level warned

abbrev or_else {ℓ} : {A : Type ℓ} → Option A → A → A
or_else none a = a
or_else (some b) a = b

-- Already down: the branch under `if state.OpenIncident != nil`.
unfoldable pub stay_down : Bool → ℤ → AlertState → Decision → Decision
stay_down on_ssl level state d =
    if on_ssl && is_tighter level state.ssl_warned_days
    then record d {
      new_ssl_warned_days = some level;
      renotify = true;
      notify = some (record { type = down; warn_days = some level });
    }
    else d

-- Crossing the threshold: the last part of applyUnhealthy.
unfoldable pub cross_threshold : Bool → ℤ → CheckResult → Decision → Decision
cross_threshold on_ssl level res d = record d {
  action = open_incident;
  incident_started_at = or_else d.new_first_fail_at res.checked_at;
  cause_reason = or_else res.failure_reason d.cause_reason;
  new_ssl_warned_days = if on_ssl then some level else d.new_ssl_warned_days;
  notify = some (record { type = down; warn_days = if on_ssl then some level else none });
}

unfoldable pub apply_unhealthy : Monitor → CheckResult → AlertState → Decision
unfolding stay_down cross_threshold
apply_unhealthy m res state =
    let new_consecutive = state.consecutive_fails + 1 in
    let first_fail_at : Option Time =
      if state.consecutive_fails == 0 then some res.checked_at else state.first_fail_at in
    let on_ssl = is_ssl m.type in
    let level : ℤ = if on_ssl then ssl_level res else pos 0 in
    let d : Decision = record (counters_only new_consecutive first_fail_at) {
      new_ssl_warned_days = if on_ssl then state.ssl_warned_days else none;
    } in
    if is_some state.open_incident
    then stay_down on_ssl level state d
    else if ltb new_consecutive m.failure_threshold
    then d
    else cross_threshold on_ssl level res d

unfoldable pub apply : Monitor → CheckResult → AlertState → Decision
unfolding apply_healthy apply_unhealthy
apply m res state = if res.healthy then apply_healthy res state else apply_unhealthy m res state
