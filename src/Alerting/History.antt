-- ===== src/Alerting/History.antt =====
-- What the alert state means in terms of the checks seen so far, the newest one first.
use pulse_pager.Prelude.{
  ℕ, ◌+◌, ◌≡◌, refl, Bool, ◌&&◌, Option, none, some, List, [], ◌∷◌, arith, leb, ltb, map_some,
  is_some, if◌then◌else◌,
}
use pulse_pager.Domain.{Time, Monitor, CheckResult, Incident, AlertState}
use pulse_pager.Alerting.Engine.{Decision, nothing, open_incident, close_incident, apply}

-- How many checks have failed since the last one that passed.
unfoldable pub trailing : List CheckResult → ℕ
trailing [] = 0
trailing (r ∷ rs) = if r.healthy then 0 else trailing rs + 1

-- When the first of them ran.
unfoldable pub run_start : List CheckResult → Option Time
run_start [] = none
run_start (r ∷ rs) =
    let before = run_start rs in
    if r.healthy then none else if is_some before then before else some r.checked_at

-- The monitor is down: some check has failed since, and as many as its threshold.
abbrev pub is_down_after : Monitor → List CheckResult → Bool
is_down_after m rs = ltb 0 (trailing rs) && leb m.failure_threshold (trailing rs)

-- The start of the incident that should be open.
abbrev pub outage : Monitor → List CheckResult → Option Time
outage m rs = if is_down_after m rs then run_start rs else none

pub record Tracks (m : Monitor) (rs : List CheckResult) (state : AlertState) : Type 0 where
  pub counted : state.consecutive_fails ≡ trailing rs
  pub started : state.first_fail_at ≡ run_start rs
  pub outage_open : map_some (λ (i : Incident). i.started_at) state.open_incident ≡ outage m rs

trailing-run_start : (rs : List CheckResult) → is_some (run_start rs) ≡ ltb 0 (trailing rs)
unfolding trailing run_start
trailing-run_start [] = refl
trailing-run_start (r ∷ rs) = ground (arith, trailing-run_start rs)

-- The start of the incident that is open after the decision.
abbrev pub outage_after : Decision → Option Incident → Option Time
outage_after d open_inc = elim d.action [
  | open_incident ↦ some d.incident_started_at
  | close_incident ↦ none
  | nothing ↦ map_some (λ (i : Incident). i.started_at) open_inc
]

-- One check moves the state on as the history says.
pub apply-Tracks :
    (m : Monitor) (r : CheckResult) (rs : List CheckResult) (state : AlertState)
    → Tracks m rs state
    → let d = apply m r state in
      (d.new_consecutive ≡ trailing (r ∷ rs))
      × (d.new_first_fail_at ≡ run_start (r ∷ rs))
      × (outage_after d state.open_incident ≡ outage m (r ∷ rs))
unfolding apply trailing run_start
apply-Tracks m r rs state t = ground (arith, trailing-run_start rs)
