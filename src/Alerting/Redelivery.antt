-- ===== src/Alerting/Redelivery.antt =====
-- A record that the bus delivers again: the handler of internal/alerting/service.go on a result
-- that was applied before.
use pulse_pager.Prelude.{
  ℕ, ◌+◌, ◌≡◌, true, false, none, some, List, arith, find, find-holds, eq_refl,
}
use pulse_pager.Domain.{Monitor, CheckResult, AlertState}
use pulse_pager.Store.Db.{MonitorRow, Db, with_org, is_row, same_result}
use pulse_pager.Store.Incidents.{
  upsert_result, upsert_check_result, select_monitor, get_monitor, select_alert_state,
  get_alert_state, is_newer, apply_decision, apply_alert_decision,
}
use pulse_pager.Alerting.Service.{
  CheckResultEvent, Env, decide, load_state, load_and_decide, handle,
}

-- The row that handle writes for an event.
abbrev pub stamped : CheckResultEvent → CheckResult
stamped ev = record (ev.result) { scheduled_at = ev.scheduled_at }

-- The same monitors, results and incidents; only the identity counters may differ.
pub record SameTables (a b : Db) : Type 0 where
  pub monitors_same : a.monitors ≡ b.monitors
  pub results_same : a.check_results ≡ b.check_results
  pub incidents_same : a.incidents ≡ b.incidents

-- The event's result is stored, and its monitor's watermark has reached it.
pub record IsSettled (ev : CheckResultEvent) (db : Db) : Type 0 where
  pub stored : CheckResult
  pub is_stored : find (same_result (stamped ev)) db.check_results ≡ some stored
  pub row : MonitorRow
  pub is_located : find (is_row ev.result.org_id ev.result.monitor_id) db.monitors ≡ some row
  pub is_applied : is_newer stored.id row.last_applied_result_id ≡ false

module _ (sha256_hex : List ℕ → List ℕ) (env : Env) where
  -- At or below the watermark the decision is dropped, and nothing is sent.
  decide-stale :
      (m : Monitor) (res : CheckResult) (id : ℕ) (state : AlertState) (db : Db) (row : MonitorRow)
      → find (is_row m.org_id m.id) db.monitors ≡ some row
      → is_newer id row.last_applied_result_id ≡ false
      → let h = decide sha256_hex env m res id state db in (h.db ≡ db) × (h.emitted ≡ none)
  unfolding decide apply_alert_decision with_org apply_decision
  decide-stale m res id state db row located stale = ground arith

  load_and_decide-stale :
      (res : CheckResult) (id : ℕ) (db : Db) (row : MonitorRow)
      → find (is_row res.org_id res.monitor_id) db.monitors ≡ some row
      → is_newer id row.last_applied_result_id ≡ false
      → let h = load_and_decide sha256_hex env res id db in (h.db ≡ db) × (h.emitted ≡ none)
  unfolding load_and_decide load_state decide apply_alert_decision with_org apply_decision
      get_monitor select_monitor get_alert_state select_alert_state
  load_and_decide-stale res id db row located stale =
      ground (arith, find-holds (is_row res.org_id res.monitor_id) db.monitors located)

  handle-settled :
      (ev : CheckResultEvent) (db : Db) (old : CheckResult) (row : MonitorRow)
      → find (same_result (stamped ev)) db.check_results ≡ some old
      → find (is_row ev.result.org_id ev.result.monitor_id) db.monitors ≡ some row
      → is_newer old.id row.last_applied_result_id ≡ false
      → let h = handle sha256_hex env (some ev) db in SameTables h.db db × (h.emitted ≡ none)
  unfolding handle upsert_check_result upsert_result with_org
  handle-settled ev db old row stored located stale = ground (
    arith,
    load_and_decide-stale (record (stamped ev) { id = old.id }) old.id
        (record db { result_seq = db.result_seq + 1 }) row located stale,
  )

-- Once an event's result is applied, delivering the event again changes no monitor, result or
-- incident and sends nothing, whatever the database and the bus do.
pub redelivery-silent :
    (sha256_hex : List ℕ → List ℕ) (env : Env) (ev : CheckResultEvent) (db : Db)
    → IsSettled ev db
    → let h = handle sha256_hex env (some ev) db in SameTables h.db db × (h.emitted ≡ none)
redelivery-silent sha256_hex env ev db s =
    handle-settled sha256_hex env ev db s.stored s.row s.is_stored s.is_located s.is_applied

pub same_result_new :
    (r : CheckResult) (i : ℕ)
    → same_result r (record r { id = i; snapshot = none; cert_info = none }) ≡ true
same_result_new r i = rw eq_refl (ground arith)
