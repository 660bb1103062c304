-- ===== src/Store/Incidents.antt =====
-- internal/store/incidents.go, and GetMonitor of internal/store/monitors.go.
use pulse_pager.Prelude.{
  ℕ, ℤ, ◌+◌, Bool, true, false, ◌&&◌, not, Option, none, some, [], ◌∷◌, ◌++◌, ◌==◌, ltb, is_some,
  any, find, update_where, keep_where, count_where, ◌||◌, if◌then◌else◌,
}
use pulse_pager.Domain.{
  Time, Monitor, CheckResult, Incident, AlertState, FailureReason, CloseReason,
}
use pulse_pager.Store.Db.{
  MonitorRow, Db, no_rows, incident_not_open, foreign_key, Result, ok, err, Link, Tx, with_org,
  is_row, is_open_of, same_result,
}

pub data IncidentAction : Type 0 where
  incident_none incident_open incident_close : IncidentAction

pub record Decision : Type 0 where
  pub action : IncidentAction
  pub new_consecutive : ℕ
  pub new_first_fail_at : Option Time
  pub incident_started_at : Time
  pub cause_reason : FailureReason
  pub incident_ended_at : Time
  pub new_ssl_warned_days : Option ℤ
  pub renotify : Bool

pub record AppliedDecision : Type 0 where
  pub applied : Bool
  pub skipped : Bool
  pub incident : Option Incident

abbrev nothing_done : AppliedDecision
nothing_done = record { applied = false; skipped = false; incident = none }

-- INSERT INTO check_results ... ON CONFLICT DO UPDATE ... RETURNING id. The row keeps its content
-- on a conflict. Its monitor must exist; the row is stored without the two in-memory fields.
unfoldable pub upsert_result : CheckResult → Tx ℕ
upsert_result r db = elim (find (same_result r) db.check_results) [
  | some old ↦ ok (old.id, record db { result_seq = db.result_seq + 1 })
  | none ↦
      if any (λ row. row.monitor.id == r.monitor_id) db.monitors
      then ok (
        db.result_seq,
        record db {
          check_results =
              db.check_results
              ++ record r { id = db.result_seq; snapshot = none; cert_info = none } ∷ [];
          result_seq = db.result_seq + 1;
        },
      )
      else err foreign_key
]

unfoldable pub upsert_check_result : Link → CheckResult → Db → Db × Result ℕ
upsert_check_result link r = with_org link (upsert_result r)

unfoldable pub select_monitor : ℕ → ℕ → Tx Monitor
select_monitor org_id id db = elim (find (is_row org_id id) db.monitors) [
  | none ↦ err no_rows
  | some row ↦ ok (row.monitor, db)
]

unfoldable pub get_monitor : Link → ℕ → ℕ → Db → Db × Result Monitor
get_monitor link org_id id = with_org link (select_monitor org_id id)

-- getOpenIncidentTx
unfoldable pub get_open_incident : ℕ → ℕ → Db → Option Incident
get_open_incident org_id monitor_id db = find (is_open_of org_id monitor_id) db.incidents

-- scanAlertState, and the open incident that GetAlertState adds.
unfoldable pub scan_alert_state : MonitorRow → Option Incident → AlertState
scan_alert_state row open_incident = record {
  consecutive_fails = row.consecutive_fails;
  first_fail_at = row.first_fail_at;
  open_incident = open_incident;
  last_applied_result_id = row.last_applied_result_id;
  ssl_warned_days = row.ssl_warned_days;
}

unfoldable pub select_alert_state : ℕ → ℕ → Tx AlertState
select_alert_state org_id monitor_id db = elim (find (is_row org_id monitor_id) db.monitors) [
  | none ↦ err no_rows
  | some row ↦ ok (scan_alert_state row (get_open_incident org_id monitor_id db), db)
]

unfoldable pub get_alert_state : Link → ℕ → ℕ → Db → Db × Result AlertState
get_alert_state link org_id monitor_id = with_org link (select_alert_state org_id monitor_id)

-- The row of an incident that is opened.
abbrev pub new_incident : Monitor → ℕ → Decision → Db → Incident
new_incident m first_result_id d db = record {
  id = db.incident_seq;
  org_id = m.org_id;
  monitor_id = m.id;
  started_at = d.incident_started_at;
  ended_at = none;
  cause_reason = d.cause_reason;
  close_reason = none;
  closed_by = none;
  first_result_id = if first_result_id == 0 then none else some first_result_id;
}

-- INSERT INTO incidents ... ON CONFLICT (monitor_id) WHERE ended_at IS NULL DO NOTHING, with the
-- foreign key of first_result_id.
unfoldable pub insert_incident : Monitor → ℕ → Decision → Tx AppliedDecision
insert_incident m first_result_id d db =
    let inc = new_incident m first_result_id d db in
    let taken = record db { incident_seq = db.incident_seq + 1 } in
    if any (λ i. i.monitor_id == m.id && not (is_some i.ended_at)) db.incidents
    then ok (nothing_done, taken)
    else if first_result_id == 0 || any (λ r. r.id == first_result_id) db.check_results
    then ok (
      record { applied = true; skipped = false; incident = some inc },
      record taken { incidents = db.incidents ++ inc ∷ [] },
    )
    else err foreign_key

-- UPDATE incidents SET ended_at, close_reason WHERE id = $3 AND ended_at IS NULL, on the incident
-- that was open when the transaction read it.
unfoldable pub close_incident : Option Incident → Decision → Tx AppliedDecision
close_incident none d db = ok (nothing_done, db)
close_incident (some i) d db =
    let closes = λ (row : Incident). row.id == i.id && not (is_some row.ended_at) in
    let end = λ (row : Incident). record row {
      ended_at = some d.incident_ended_at;
      close_reason = some CloseReason.recovered;
    } in
    if any closes db.incidents
    then ok (
      record { applied = true; skipped = false; incident = some (end i) },
      record db { incidents = update_where closes end db.incidents },
    )
    else ok (nothing_done, db)

-- The switch on the action.
unfoldable pub act_on_incident : Monitor → ℕ → Option Incident → Decision → Tx AppliedDecision
unfolding insert_incident close_incident
act_on_incident m first_result_id open_inc d db = elim d.action [
  | incident_open ↦ insert_incident m first_result_id d db
  | incident_close ↦ close_incident open_inc d db
  | incident_none ↦ ok (nothing_done, db)
]

-- if d.Renotify && open != nil
unfoldable pub surface_renotify : Option Incident → Decision → AppliedDecision → AppliedDecision
surface_renotify none d res = res
surface_renotify (some i) d res =
    if d.renotify then record res { applied = true; incident = some i } else res

-- last_applied_result_id IS NULL OR last_applied_result_id < $3
abbrev pub is_newer : ℕ → Option ℕ → Bool
is_newer max_result_id none = true
is_newer max_result_id (some last) = ltb last max_result_id

-- UPDATE monitors SET consecutive_fails, first_fail_at, last_applied_result_id, ssl_warned_days.
unfoldable pub write_counters : Monitor → ℕ → Decision → Db → Db
write_counters m max_result_id d db = record db {
  monitors =
      update_where
        (λ row. is_row m.org_id m.id row && is_newer max_result_id row.last_applied_result_id)
        (λ row. record row {
          consecutive_fails = d.new_consecutive;
          first_fail_at = d.new_first_fail_at;
          last_applied_result_id = some max_result_id;
          ssl_warned_days = d.new_ssl_warned_days;
        })
        db.monitors;
}

-- The body after the watermark test.
unfoldable pub apply_fresh : Monitor → ℕ → ℕ → Decision → Tx AppliedDecision
unfolding act_on_incident surface_renotify write_counters
apply_fresh m max_result_id first_result_id d db =
    let open_inc = get_open_incident m.org_id m.id db in
    elim (act_on_incident m first_result_id open_inc d db) [
      | err e ↦ err e
      | ok (res, db') ↦ ok (surface_renotify open_inc d res, write_counters m max_result_id d db')
    ]

unfoldable pub apply_decision : Monitor → ℕ → ℕ → Decision → Tx AppliedDecision
unfolding apply_fresh
apply_decision m max_result_id first_result_id d db =
    elim (find (is_row m.org_id m.id) db.monitors) [
      | none ↦ err no_rows
      | some row ↦
          if is_newer max_result_id row.last_applied_result_id
          then apply_fresh m max_result_id first_result_id d db
          else ok (record { applied = false; skipped = true; incident = none }, db)
    ]

unfoldable pub apply_alert_decision :
    Link → Monitor → ℕ → ℕ → Decision → Db → Db × Result AppliedDecision
apply_alert_decision link m max_result_id first_result_id d =
    with_org link (apply_decision m max_result_id first_result_id d)

-- ManualCloseIncident: an operator's close, which no notification follows.
unfoldable pub close_by_hand : ℕ → ℕ → ℕ → Time → Tx Incident
close_by_hand org_id id by_user_id ended_at db =
    elim (find (λ i. i.id == id && i.org_id == org_id) db.incidents) [
      | none ↦ err no_rows
      | some got ↦
          let end = λ (row : Incident). record row {
            ended_at = some ended_at;
            close_reason = some CloseReason.manual;
            closed_by = if by_user_id == 0 then none else some by_user_id;
          } in
          if is_some got.ended_at
          then err incident_not_open
          else ok (
            end got,
            record db {
              incidents =
                  update_where (λ row. row.id == id && not (is_some row.ended_at)) end db.incidents;
            },
          )
    ]

unfoldable pub manual_close_incident : Link → ℕ → ℕ → ℕ → Time → Db → Db × Result Incident
manual_close_incident link org_id id by_user_id ended_at =
    with_org link (close_by_hand org_id id by_user_id ended_at)

-- DeleteMonitor: the monitor goes, and its results and incidents with it.
unfoldable pub delete_rows : ℕ → ℕ → Tx ℕ
delete_rows org_id id db =
    let affected = count_where (is_row org_id id) db.monitors in
    ok (
      affected,
      if affected == 0 then db else record db {
        monitors = keep_where (λ row. not (is_row org_id id row)) db.monitors;
        check_results = keep_where (λ r. not (r.monitor_id == id)) db.check_results;
        incidents = keep_where (λ i. not (i.monitor_id == id)) db.incidents;
      },
    )

unfoldable pub delete_monitor : Link → ℕ → ℕ → Db → Db × Result ℕ
delete_monitor link org_id id = with_org link (delete_rows org_id id)
