-- ===== src/Alerting/Current.antt =====
-- One delivery of a check result to internal/alerting/service.go, and the alert state that it leaves.
use pulse_pager.Prelude.{
  map_some, Bool, true, some, none, ℕ, ◌+◌, ◌≡◌, ◌∙◌, List, [], ◌∷◌, ◌++◌, arith, ◌==◌, find,
  find-holds, any-append, All-find,
}
use pulse_pager.Domain.{Monitor, CheckResult}
use pulse_pager.Store.Db.{lost, MonitorRow, Db, with_org, is_row, same_result}
use pulse_pager.Store.Incidents.{
  upsert_result, upsert_check_result, select_monitor, get_monitor, select_alert_state,
  get_alert_state, scan_alert_state, get_open_incident, is_newer,
}
use pulse_pager.Store.Invariant.{IsValid}
use pulse_pager.Store.OpenIncident.{IsOwned}
use pulse_pager.Alerting.Service.{
  CheckResultEvent, Env, to_store_decision, decide, load_state, load_and_decide, handle,
}
use pulse_pager.Alerting.Redelivery.{stamped}
use pulse_pager.Alerting.Retry.{with_number, handle-stored, handle-lost}
use pulse_pager.Alerting.Settling.{any-id, any-monitor, advanced}
use pulse_pager.Alerting.Engine.{apply}
use pulse_pager.Alerting.Delivery.{Reaches}
use pulse_pager.Alerting.Invariant.{handle-IsValid}
use pulse_pager.Alerting.History.{Tracks, trailing, run_start}
use pulse_pager.Alerting.Tracking.{decide-Tracks}

-- The stored alert state of a monitor agrees with the history of its checks.
pub record IsCurrent (m : Monitor) (rs : List CheckResult) (db : Db) : Type 0 where
  pub row : MonitorRow
  pub is_located : find (is_row m.org_id m.id) db.monitors ≡ some row
  pub is_its : row.monitor ≡ m
  pub tracks : Tracks m rs (scan_alert_state row (get_open_incident m.org_id m.id db))
  pub owned : IsOwned m db
  pub valid : IsValid db

-- The row that a new result becomes, and the tables with it.
abbrev new_row : CheckResultEvent → Db → CheckResult
new_row ev db = record (stamped ev) { id = db.result_seq; snapshot = none; cert_info = none }

abbrev with_result : CheckResultEvent → Db → Db
with_result ev db = record db {
  check_results = db.check_results ++ new_row ev db ∷ [];
  result_seq = db.result_seq + 1;
}

module _ (sha256_hex : List ℕ → List ℕ) (env : Env) (ev : CheckResultEvent) (db : Db) where
  handle-first :
      (m : Monitor) (row : MonitorRow)
      → Reaches env
      → row.monitor ≡ m
      → find (is_row ev.result.org_id ev.result.monitor_id) db.monitors ≡ some row
      → find (same_result (stamped ev)) db.check_results ≡ none
      → (handle sha256_hex env (some ev) db).db
        ≡ (decide sha256_hex env m
            (record (stamped ev) { id = db.result_seq })
            db.result_seq
            (scan_alert_state row (get_open_incident m.org_id m.id (with_result ev db)))
            (with_result ev db)).db
  unfolding handle load_and_decide load_state upsert_check_result upsert_result get_monitor
      select_monitor get_alert_state select_alert_state with_org
  handle-first m row r its located new = ground (
    arith,
    r,
    find-holds (is_row ev.result.org_id ev.result.monitor_id) db.monitors located,
    any-monitor ev.result.org_id ev.result.monitor_id db.monitors row located,
  )

-- The event belongs to the monitor, and no result is stored for it.
pub record IsNew (m : Monitor) (ev : CheckResultEvent) (db : Db) : Type 0 where
  pub same_org : ev.result.org_id ≡ m.org_id
  pub same_monitor : ev.result.monitor_id ≡ m.id
  pub is_first : find (same_result (stamped ev)) db.check_results ≡ none

newer-below :
    (db : Db) (org_id id : ℕ) (row : MonitorRow)
    → IsValid db
    → find (is_row org_id id) db.monitors ≡ some row
    → is_newer db.result_seq row.last_applied_result_id ≡ true
newer-below db org_id id row v located = All-find _ _ db.monitors v.watermarks_below located

module _ (sha256_hex : List ℕ → List ℕ) where
  -- The first delivery of a check, as far as its decision is committed, adds it to the history.
  pub handle-IsCurrent :
      (env : Env) (m : Monitor) (ev : CheckResultEvent) (rs : List CheckResult) (db : Db)
      → Reaches env
      → IsNew m ev db
      → IsCurrent m rs db
      → IsCurrent m (stamped ev ∷ rs) (handle sha256_hex env (some ev) db).db
  unfolding get_open_incident trailing run_start
  handle-IsCurrent env m ev rs db r n c =
      let located : find (is_row ev.result.org_id ev.result.monitor_id) db.monitors ≡ some c.row =
        rw (n.same_org, n.same_monitor) c.is_located in
      let first = handle-first sha256_hex env ev db m c.row r c.is_its located n.is_first in
      let res = record (stamped ev) { id = db.result_seq } in
      let (located', owned', tracks') =
        decide-Tracks sha256_hex env m rs res db.result_seq (with_result ev db) c.row r.committed
          c.owned (c.valid.one_open m.id)
          (any-append (λ x. x.id == db.result_seq) db.check_results (new_row ev db ∷ [])
            ∙ ground arith)
          c.is_located (newer-below db m.org_id m.id c.row c.valid c.is_located) c.tracks in
      record {
        row =
            advanced db.result_seq
              (to_store_decision (
                apply m res
                  (scan_alert_state c.row (get_open_incident m.org_id m.id (with_result ev db)))))
              c.row;
        is_located = rw first located';
        is_its = c.is_its;
        tracks = rw first (record {
          counted = tracks'.counted;
          started = tracks'.started;
          outage_open = tracks'.outage_open;
        });
        owned = rw first owned';
        valid = handle-IsValid sha256_hex env (some ev) db c.valid;
      }

-- An earlier delivery of the event has stored its result, and no result as late is applied yet.
pub record IsPending (m : Monitor) (ev : CheckResultEvent) (db : Db) : Type 0 where
  pub same_org : ev.result.org_id ≡ m.org_id
  pub same_monitor : ev.result.monitor_id ≡ m.id
  pub stored : CheckResult
  pub is_stored : find (same_result (stamped ev)) db.check_results ≡ some stored
  pub is_unapplied :
      map_some
        (λ (row : MonitorRow). is_newer stored.id row.last_applied_result_id)
        (find (is_row m.org_id m.id) db.monitors)
      ≡ some true

some-true : (b : Bool) → some b ≡ some true → b ≡ true
some-true b e = ground arith

module _ (sha256_hex : List ℕ → List ℕ) where
  -- The delivery that commits the decision, after some that did not, adds the check as well.
  pub retry-IsCurrent :
      (env : Env) (m : Monitor) (ev : CheckResultEvent) (rs : List CheckResult) (db : Db)
      → Reaches env
      → IsPending m ev db
      → IsCurrent m rs db
      → IsCurrent m (stamped ev ∷ rs) (handle sha256_hex env (some ev) db).db
  unfolding get_open_incident trailing run_start
  retry-IsCurrent env m ev rs db r n c =
      let located : find (is_row ev.result.org_id ev.result.monitor_id) db.monitors ≡ some c.row =
        rw (n.same_org, n.same_monitor) c.is_located in
      let same =
        handle-stored sha256_hex env ev db m c.row n.stored r c.is_its located n.is_stored in
      let res = record (stamped ev) { id = n.stored.id } in
      let state = scan_alert_state c.row (get_open_incident m.org_id m.id (with_number db)) in
      let (located', owned', tracks') =
        decide-Tracks sha256_hex env m rs res n.stored.id (with_number db) c.row r.committed c.owned
          (c.valid.one_open m.id)
          (any-id (same_result (stamped ev)) db.check_results n.stored n.is_stored) c.is_located
          (some-true _ (rw c.is_located at n.is_unapplied)) c.tracks in
      record {
        row = advanced n.stored.id (to_store_decision (apply m res state)) c.row;
        is_located = rw same located';
        is_its = c.is_its;
        tracks = rw same (record {
          counted = tracks'.counted;
          started = tracks'.started;
          outage_open = tracks'.outage_open;
        });
        owned = rw same owned';
        valid = handle-IsValid sha256_hex env (some ev) db c.valid;
      }

  -- A delivery that does not commit its decision changes nothing of it.
  pub attempt-IsCurrent :
      (env : Env) (m : Monitor) (ev : CheckResultEvent) (rs : List CheckResult) (db : Db)
      → env.applies ≡ lost
      → IsCurrent m rs db
      → IsCurrent m rs (handle sha256_hex env (some ev) db).db
  unfolding get_open_incident
  attempt-IsCurrent env m ev rs db l c =
      let (monitors_same, incidents_same) = handle-lost sha256_hex env ev db l in
      record {
        row = c.row;
        is_located = rw monitors_same c.is_located;
        is_its = c.is_its;
        tracks = rw incidents_same c.tracks;
        owned = rw incidents_same c.owned;
        valid = handle-IsValid sha256_hex env (some ev) db c.valid;
      }
