-- ===== src/Alerting/Retry.antt =====
-- The handler of internal/alerting/service.go on a result that an earlier delivery has stored and
-- not applied, and when its decision is not applied.
use pulse_pager.Prelude.{ℕ, ◌+◌, ◌≡◌, ap, ◌∙◌, some, List, arith, find, find-holds, inl, inr}
use pulse_pager.Domain.{Monitor, CheckResult, AlertState}
use pulse_pager.Store.Db.{MonitorRow, Db, Link, lost, with_org, is_row, same_result}
use pulse_pager.Store.Incidents.{
  upsert_result, upsert_check_result, select_monitor, get_monitor, apply_alert_decision,
  select_alert_state, get_alert_state, scan_alert_state, get_open_incident,
}
use pulse_pager.Alerting.Engine.{apply}
use pulse_pager.Alerting.Service.{
  CheckResultEvent, Env, to_store_decision, decide, load_state, load_and_decide, handle,
}
use pulse_pager.Alerting.Redelivery.{stamped}
use pulse_pager.Alerting.Delivery.{Reaches}
use pulse_pager.Alerting.Invariant.{get_monitor-db, get_alert_state-db, decide-db, Result-cases}

-- The tables once the result is found stored: one more number is drawn.
abbrev pub with_number : Db → Db
with_number db = record db { result_seq = db.result_seq + 1 }

module _ (sha256_hex : List ℕ → List ℕ) (env : Env) where
  pub handle-stored :
      (ev : CheckResultEvent) (db : Db) (m : Monitor) (row : MonitorRow) (old : CheckResult)
      → Reaches env
      → row.monitor ≡ m
      → find (is_row ev.result.org_id ev.result.monitor_id) db.monitors ≡ some row
      → find (same_result (stamped ev)) db.check_results ≡ some old
      → (handle sha256_hex env (some ev) db).db
        ≡ (decide sha256_hex env m
            (record (stamped ev) { id = old.id })
            old.id
            (scan_alert_state row (get_open_incident m.org_id m.id (with_number db)))
            (with_number db)).db
  unfolding handle load_and_decide load_state upsert_check_result upsert_result get_monitor
      select_monitor get_alert_state select_alert_state with_org
  handle-stored ev db m row old r its located known =
      ground
        (arith, r, find-holds (is_row ev.result.org_id ev.result.monitor_id) db.monitors located)

  decide-lost :
      (m : Monitor) (res : CheckResult) (id : ℕ) (state : AlertState) (db : Db)
      → env.applies ≡ lost
      → (decide sha256_hex env m res id state db).db ≡ db
  unfolding apply_alert_decision with_org
  decide-lost m res id state db l =
      decide-db sha256_hex env m res id state db
      ∙ ap (λ k. (apply_alert_decision k m id id (to_store_decision (apply m res state)) db).0) l

  load_state-lost :
      (m : Monitor) (res : CheckResult) (id : ℕ) (db : Db)
      → env.applies ≡ lost
      → (load_state sha256_hex env m res id db).db ≡ db
  unfolding load_state
  load_state-lost m res id db l =
      let same = get_alert_state-db env.gets_state m.org_id m.id db in
      elim (Result-cases (get_alert_state env.gets_state m.org_id m.id db).1) [
        | inl (x, e) ↦ rw (e, load_state) same
        | inr (state, e) ↦ rw (e, load_state) (rw same (decide-lost m res id state db l))
      ]

  load_and_decide-lost :
      (res : CheckResult) (id : ℕ) (db : Db)
      → env.applies ≡ lost
      → (load_and_decide sha256_hex env res id db).db ≡ db
  unfolding load_and_decide
  load_and_decide-lost res id db l =
      let same = get_monitor-db env.gets_monitor res.org_id res.monitor_id db in
      elim (Result-cases (get_monitor env.gets_monitor res.org_id res.monitor_id db).1) [
        | inl (x, e) ↦ rw (e, load_and_decide) same
        | inr (m, e) ↦ rw (e, load_and_decide) (rw same (load_state-lost m res id db l))
      ]

  upsert-same :
      (link : Link) (r : CheckResult) (db : Db)
      → ((upsert_check_result link r db).0.monitors ≡ db.monitors)
        × ((upsert_check_result link r db).0.incidents ≡ db.incidents)
  unfolding upsert_check_result upsert_result with_org
  upsert-same link r db = ground arith

  -- A delivery whose decision is not committed leaves the monitors and the incidents as they were.
  pub handle-lost :
      (ev : CheckResultEvent) (db : Db)
      → env.applies ≡ lost
      → ((handle sha256_hex env (some ev) db).db.monitors ≡ db.monitors)
        × ((handle sha256_hex env (some ev) db).db.incidents ≡ db.incidents)
  unfolding handle
  handle-lost ev db l =
      let same = upsert-same env.upserts (stamped ev) db in
      elim (Result-cases (upsert_check_result env.upserts (stamped ev) db).1) [
        | inl (x, e) ↦ rw (e, handle) same
        | inr (id, e) ↦
            let kept =
              load_and_decide-lost (record (stamped ev) { id = id }) id
                (upsert_check_result env.upserts (stamped ev) db).0 l in
            rw (e, handle) (rw kept same)
      ]
