-- ===== src/Alerting/Tracking.antt =====
-- The stored alert state follows the history of checks: one delivery of internal/alerting/service.go.
use pulse_pager.Prelude.{
  ℕ, ◌≤◌, ◌≡◌, ◌≢◌, refl, ap, ◌∙◌, true, Option, none, some, List, ◌∷◌, arith, ◌==◌, any, find,
  count_where, if◌then◌else◌,
}
use pulse_pager.Domain.{Monitor, CheckResult, Incident, AlertState}
use pulse_pager.Store.Db.{
  MonitorRow, Db, Link, Tx, settle, Result, ok, err, works, lost, commit_unknown, with_org, is_row,
}
use pulse_pager.Store.Incidents.{
  Decision, AppliedDecision, incident_open, scan_alert_state, get_open_incident, is_newer,
  act_on_incident, write_counters, apply_fresh, apply_decision, apply_alert_decision,
}
use pulse_pager.Store.Invariant.{is_open_at}
use pulse_pager.Store.OpenIncident.{IsOwned, start_after, open_start, Opens, act_on_incident-Opens}
use pulse_pager.Alerting.Engine
use pulse_pager.Alerting.Engine.{apply}
use pulse_pager.Alerting.Invariant.{decide-db}
use pulse_pager.Alerting.Service.{Env, to_store_decision, decide}
use pulse_pager.Alerting.Settling.{Returns, advanced, find-write_counters, act_on_incident-Returns}
use pulse_pager.Alerting.History.{Tracks, outage_after, apply-Tracks}

-- What a fresh decision leaves of the monitor.
abbrev Leaves : Monitor → MonitorRow → Option ℕ → Result (AppliedDecision × Db) → Type 0
Leaves m row start (ok (_, db)) =
    (find (is_row m.org_id m.id) db.monitors ≡ some row) × IsOwned m db × (open_start m db ≡ start)
Leaves m row start (err _) = ⊥

apply_fresh-Leaves :
    (m : Monitor) (id : ℕ) (d : Decision) (db : Db) (row : MonitorRow)
    → IsOwned m db
    → count_where (is_open_at m.id) db.incidents ≤ 1
    → any (λ r. r.id == id) db.check_results ≡ true
    → (d.action ≡ incident_open → get_open_incident m.org_id m.id db ≡ none)
    → find (is_row m.org_id m.id) db.monitors ≡ some row
    → is_newer id row.last_applied_result_id ≡ true
    → Leaves m
        (advanced id d row)
        (start_after d (get_open_incident m.org_id m.id db))
        (apply_fresh m id id d db)
unfolding apply_fresh write_counters get_open_incident
apply_fresh-Leaves m id d db row o c known free located fresh =
    go (act_on_incident m id open_inc d db) (act_on_incident-Opens m id d db o c known free)
      (act_on_incident-Returns m id open_inc d db known) refl
  where
    open_inc : Option Incident
    open_inc = get_open_incident m.org_id m.id db

    go :
        (r : Result (AppliedDecision × Db))
        → Opens m (start_after d open_inc) r
        → Returns
            (λ (out : AppliedDecision × Db).
              (out.1.monitors ≡ db.monitors) × (out.1.check_results ≡ db.check_results))
            r
        → act_on_incident m id open_inc d db ≡ r
        → Leaves m (advanced id d row) (start_after d open_inc) (apply_fresh m id id d db)
    go (ok (res, db')) p q e =
        rw (e, apply_fresh)
          (
            find-write_counters m id d db' row (rw q.0 located)
                ∙ ap (λ b. some (if b then advanced id d row else row)) fresh,
            p.0,
            p.1,
          )
    go (err x) p q e = absurd p

abbrev LeavesDb : Monitor → MonitorRow → Option ℕ → Db → Type 0
LeavesDb m row start db =
    (find (is_row m.org_id m.id) db.monitors ≡ some row) × IsOwned m db × (open_start m db ≡ start)

with_org-Leaves :
    (link : Link) (m : Monitor) (row : MonitorRow) (start : Option ℕ) (body : Tx AppliedDecision)
    (db : Db)
    → link ≢ lost
    → Leaves m row start (body db)
    → LeavesDb m row start (with_org link body db).0
unfolding with_org
with_org-Leaves link m row start body db reaches p = go link (body db) reaches p
  where
    go :
        (l : Link) (r : Result (AppliedDecision × Db))
        → l ≢ lost
        → Leaves m row start r
        → LeavesDb m row start (settle l db r).0
    go works (ok (a, db')) h p = p
    go commit_unknown (ok (a, db')) h p = p
    go lost (ok (a, db')) h p = absurd (h refl)
    go l (err e) h p = absurd p

-- A fresh decision that reaches the tables.
apply_alert_decision-Leaves :
    (link : Link) (m : Monitor) (id : ℕ) (d : Decision) (db : Db) (row : MonitorRow)
    → link ≢ lost
    → IsOwned m db
    → count_where (is_open_at m.id) db.incidents ≤ 1
    → any (λ r. r.id == id) db.check_results ≡ true
    → (d.action ≡ incident_open → get_open_incident m.org_id m.id db ≡ none)
    → find (is_row m.org_id m.id) db.monitors ≡ some row
    → is_newer id row.last_applied_result_id ≡ true
    → LeavesDb m
        (advanced id d row)
        (start_after d (get_open_incident m.org_id m.id db))
        (apply_alert_decision link m id id d db).0
unfolding apply_alert_decision apply_decision
apply_alert_decision-Leaves link m id d db row reaches o c known free located fresh =
    with_org-Leaves link m _ _ (apply_decision m id id d) db reaches (
      rw (located, fresh, apply_decision)
        (apply_fresh-Leaves m id d db row o c known free located fresh))

opens-free :
    (m : Monitor) (r : CheckResult) (state : AlertState)
    → (to_store_decision (apply m r state)).action ≡ incident_open
    → state.open_incident ≡ none
unfolding apply to_store_decision
opens-free m r state e = ground arith

start_after-outage :
    (d : Engine.Decision) (o : Option Incident)
    → start_after (to_store_decision d) o ≡ outage_after d o
unfolding to_store_decision
start_after-outage d o = ground arith

module _ (sha256_hex : List ℕ → List ℕ) (env : Env) (m : Monitor) (rs : List CheckResult) where
  -- A check is delivered for the first time: row, incident and history agree again.
  pub decide-Tracks :
      (r : CheckResult) (id : ℕ) (db : Db) (row : MonitorRow)
      → env.applies ≢ lost
      → IsOwned m db
      → count_where (is_open_at m.id) db.incidents ≤ 1
      → any (λ x. x.id == id) db.check_results ≡ true
      → find (is_row m.org_id m.id) db.monitors ≡ some row
      → is_newer id row.last_applied_result_id ≡ true
      → Tracks m rs (scan_alert_state row (get_open_incident m.org_id m.id db))
      → let state = scan_alert_state row (get_open_incident m.org_id m.id db) in
        let h = decide sha256_hex env m r id state db in
        let row' = advanced id (to_store_decision (apply m r state)) row in
        (find (is_row m.org_id m.id) h.db.monitors ≡ some row')
        × IsOwned m h.db
        × Tracks m (r ∷ rs) (scan_alert_state row' (get_open_incident m.org_id m.id h.db))
  unfolding scan_alert_state to_store_decision
  decide-Tracks r id db row reaches o c known located fresh t =
      let state = scan_alert_state row (get_open_incident m.org_id m.id db) in
      let d = to_store_decision (apply m r state) in
      let (located', owned', start') =
        apply_alert_decision-Leaves env.applies m id d db row reaches o c known
          (opens-free m r state) located fresh in
      let (counted', started', outage') = apply-Tracks m r rs state t in
      rw (decide-db sha256_hex env m r id state db) (
        located',
        owned',
        record {
          counted = counted';
          started = started';
          outage_open = start' ∙ start_after-outage (apply m r state) state.open_incident ∙ outage';
        },
      )
