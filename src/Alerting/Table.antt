-- ===== src/Alerting/Table.antt =====
-- The transition table of the state machine.
use pulse_pager.Prelude.{
  ◌+◌, ◌≤◌, ◌≡◌, ◌↔◌, ◌⊎◌, true, false, none, some, arith, is_some, if◌then◌else◌,
}
use pulse_pager.Domain.{Monitor, CheckResult, AlertState, is_ssl}
use pulse_pager.Alerting.Engine.{
  nothing, open_incident, close_incident, recovery, down, is_tighter, ssl_level, apply,
}

-- An incident is opened exactly when the check failed, none is open and the failures in a row,
-- this one counted, have reached the threshold; it is closed exactly when the check passed and
-- one is open.
pub apply-action_iff :
    (m : Monitor) (res : CheckResult) (state : AlertState)
    → (((apply m res state).action ≡ open_incident) ↔ (
        (res.healthy ≡ false)
        × (is_some state.open_incident ≡ false)
        × (m.failure_threshold ≤ state.consecutive_fails + 1)))
      × (((apply m res state).action ≡ close_incident)
          ↔ ((res.healthy ≡ true) × (is_some state.open_incident ≡ true)))
unfolding apply
apply-action_iff m res state = ground arith

-- The caller is asked to notify exactly when an incident is opened, closed or renotified: with a
-- recovery, which carries no level, exactly when it is closed, and with an outage exactly when it is
-- opened or renotified. The outage carries the level of the check if the monitor is an ssl monitor,
-- and none if it is not. Only an ssl monitor renotifies, on an incident that is open, for a failed
-- check whose level is tighter than the one stored.
pub apply-notify_iff :
    (m : Monitor) (res : CheckResult) (state : AlertState)
    → let d = apply m res state in
      ((d.notify ≡ some (record { type = recovery; warn_days = none }))
        ↔ (d.action ≡ close_incident))
      × ((d.notify
            ≡ some (record {
              type = down;
              warn_days = if is_ssl m.type then some (ssl_level res) else none;
            }))
          ↔ ((d.action ≡ open_incident) ⊎ (d.renotify ≡ true)))
      × ((d.notify ≡ none) ↔ ((d.action ≡ nothing) × (d.renotify ≡ false)))
      × ((d.renotify ≡ true) ↔ (
          (res.healthy ≡ false)
          × (is_some state.open_incident ≡ true)
          × (is_ssl m.type ≡ true)
          × (is_tighter (ssl_level res) state.ssl_warned_days ≡ true)))
unfolding apply
apply-notify_iff m res state = ground arith
