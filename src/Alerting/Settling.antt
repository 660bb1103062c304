-- ===== src/Alerting/Settling.antt =====
-- The first delivery: what the handler has stored when it comes to an end.
use pulse_pager.Prelude.{
  ℕ, ◌≡◌, ◌≢◌, refl, Bool, true, false, Option, none, some, List, [], ◌∷◌, arith, find, any,
  if◌then◌else◌, find-holds, find-append, find-update_where, Option-cases, inl, inr, ◌==◌,
  any-append, map_some,
}
use pulse_pager.Domain.{Monitor, CheckResult, AlertState, Incident}
use pulse_pager.Store.Db.{
  MonitorRow, Db, Result, ok, err, works, lost, with_org, is_row, same_result,
}
use pulse_pager.Store.Incidents.{
  Decision, AppliedDecision, upsert_result, upsert_check_result, select_monitor, get_monitor,
  select_alert_state, get_alert_state, is_newer, act_on_incident, write_counters, apply_fresh,
  apply_decision, apply_alert_decision, get_open_incident, scan_alert_state,
}
use pulse_pager.Alerting.Service.{
  CheckResultEvent, Env, to_store_decision, decide, load_state, load_and_decide, handle,
}
use pulse_pager.Alerting.Engine.{apply}
use pulse_pager.Alerting.Redelivery.{stamped, same_result_new}

-- A successful value with a property.
abbrev pub Returns : {A : Type 0} → (A → Type 0) → Result A → Type 0
Returns P (ok a) = P a
Returns P (err e) = ⊥

Returns-elim :
    {A : Type 0} (P : A → Type 0) (r : Result A) → Returns P r → (a : A) × (r ≡ ok a) × P a
Returns-elim P (ok a) h = (a, refl, h)
Returns-elim P (err e) h = absurd h

-- The switch on the action fails for no action, and touches neither monitors nor results.
pub act_on_incident-Returns :
    (m : Monitor) (id : ℕ) (o : Option Incident) (d : Decision) (db : Db)
    → any (λ r. r.id == id) db.check_results ≡ true
    → Returns
        (λ (out : AppliedDecision × Db).
          (out.1.monitors ≡ db.monitors) × (out.1.check_results ≡ db.check_results))
        (act_on_incident m id o d db)
unfolding act_on_incident
act_on_incident-Returns m id o d db h = ground arith

-- What writing the counters makes of the monitor's row.
abbrev pub advanced : ℕ → Decision → MonitorRow → MonitorRow
advanced id d row = record row {
  consecutive_fails = d.new_consecutive;
  first_fail_at = d.new_first_fail_at;
  last_applied_result_id = some id;
  ssl_warned_days = d.new_ssl_warned_days;
}

pub find-write_counters :
    (m : Monitor) (id : ℕ) (d : Decision) (db : Db) (row : MonitorRow)
    → find (is_row m.org_id m.id) db.monitors ≡ some row
    → find (is_row m.org_id m.id) (write_counters m id d db).monitors
      ≡ some (if is_newer id row.last_applied_result_id then advanced id d row else row)
unfolding write_counters
find-write_counters m id d db row located =
    rw (find-update_where (is_row m.org_id m.id) _ (advanced id d) (λ x. refl) db.monitors, located)
      (rw (find-holds (is_row m.org_id m.id) db.monitors located))

-- The body after the watermark test succeeds and writes the counters.
apply_fresh-Returns :
    (m : Monitor) (id : ℕ) (d : Decision) (db : Db)
    → any (λ r. r.id == id) db.check_results ≡ true
    → Returns
        (λ (out : AppliedDecision × Db).
          (out.1.monitors ≡ (write_counters m id d db).monitors)
          × (out.1.check_results ≡ db.check_results))
        (apply_fresh m id id d db)
unfolding apply_fresh act_on_incident write_counters
apply_fresh-Returns m id d db known = ground arith

pub apply_decision-Returns :
    (m : Monitor) (id : ℕ) (d : Decision) (db : Db) (row : MonitorRow)
    → any (λ r. r.id == id) db.check_results ≡ true
    → find (is_row m.org_id m.id) db.monitors ≡ some row
    → Returns
        (λ (out : AppliedDecision × Db).
          (find (is_row m.org_id m.id) out.1.monitors
            ≡ some (if is_newer id row.last_applied_result_id then advanced id d row else row))
          × (out.1.check_results ≡ db.check_results))
        (apply_decision m id id d db)
unfolding apply_decision
apply_decision-Returns m id d db row known located =
    ground (arith, apply_fresh-Returns m id d db known, find-write_counters m id d db row located)

pub any-id :
    (p : CheckResult → Bool) (rs : List CheckResult) (r : CheckResult)
    → find p rs ≡ some r
    → any (λ x. x.id == r.id) rs ≡ true
unfolding find
any-id p [] r e = cc
any-id p (x ∷ rs) r e = ground (arith, any-id p rs r)

pub any-monitor :
    (org_id id : ℕ) (rows : List MonitorRow) (row : MonitorRow)
    → find (is_row org_id id) rows ≡ some row
    → any (λ x. x.monitor.id == id) rows ≡ true
unfolding find
any-monitor org_id id [] row e = cc
any-monitor org_id id (x ∷ rows) row e = ground (arith, any-monitor org_id id rows row)

-- The row of an event, once written, is found by the event again and has the id returned.
pub upsert_result-Returns :
    (r : CheckResult) (db : Db)
    → any (λ row. row.monitor.id == r.monitor_id) db.monitors ≡ true
    → Returns
        (λ (out : ℕ × Db).
          (out.1.monitors ≡ db.monitors)
          × (out.1.incidents ≡ db.incidents)
          × (any (λ x. x.id == out.0) out.1.check_results ≡ true)
          × (map_some (λ x. x.id) (find (same_result r) out.1.check_results) ≡ some out.0))
        (upsert_result r db)
unfolding upsert_result find
upsert_result-Returns r db known = elim (Option-cases (find (same_result r) db.check_results)) [
  | inl new ↦ ground (
    arith,
    find-append (same_result r) db.check_results
        (record r { id = db.result_seq; snapshot = none; cert_info = none } ∷ []),
    any-append (λ x. x.id == db.result_seq) db.check_results
        (record r { id = db.result_seq; snapshot = none; cert_info = none } ∷ []),
    same_result_new r db.result_seq,
  )
  | inr (old, e) ↦ ground (arith, any-id (same_result r) db.check_results old e)
]

module _ (sha256_hex : List ℕ → List ℕ) (env : Env) (reaches : env.applies ≢ lost) where
  -- The row of the monitor after the decision is at or above the result.
  abbrev pub settled_at : ℕ → ℕ → ℕ → Db → Option Bool
  settled_at org_id id result_id db =
      map_some (λ row. is_newer result_id row.last_applied_result_id)
        (find (is_row org_id id) db.monitors)

  decide-settles :
      (m : Monitor) (res : CheckResult) (id : ℕ) (state : AlertState) (db : Db) (row : MonitorRow)
      → any (λ r. r.id == id) db.check_results ≡ true
      → find (is_row m.org_id m.id) db.monitors ≡ some row
      → let h = decide sha256_hex env m res id state db in
        (h.db.check_results ≡ db.check_results) × (settled_at m.org_id m.id id h.db ≡ some false)
  unfolding decide apply_alert_decision with_org
  decide-settles m res id state db row known located = ground (
    arith,
    apply_decision-Returns m id (to_store_decision (apply m res state)) db row known located,
  )

  load_and_decide-settles :
      (res : CheckResult) (id : ℕ) (db : Db) (row : MonitorRow)
      → env.gets_monitor ≡ works
      → env.gets_state ≡ works
      → any (λ r. r.id == id) db.check_results ≡ true
      → find (is_row res.org_id res.monitor_id) db.monitors ≡ some row
      → let h = load_and_decide sha256_hex env res id db in
        (h.db.check_results ≡ db.check_results)
        × (settled_at res.org_id res.monitor_id id h.db ≡ some false)
  unfolding load_and_decide load_state get_monitor select_monitor get_alert_state select_alert_state
      with_org
  load_and_decide-settles res id db row wm ws known located = ground (
    arith,
    find-holds (is_row res.org_id res.monitor_id) db.monitors located,
    decide-settles row.monitor res id
        (scan_alert_state row (get_open_incident row.monitor.org_id row.monitor.id db)) db row
        known,
  )

  pub handle-settles :
      (ev : CheckResultEvent) (db : Db) (row : MonitorRow)
      → env.upserts ≡ works
      → env.gets_monitor ≡ works
      → env.gets_state ≡ works
      → find (is_row ev.result.org_id ev.result.monitor_id) db.monitors ≡ some row
      → let h = handle sha256_hex env (some ev) db in
        (i : ℕ) × (map_some (λ x. x.id) (find (same_result (stamped ev)) h.db.check_results)
          ≡ some i)
        × (settled_at ev.result.org_id ev.result.monitor_id i h.db ≡ some false)
  unfolding handle upsert_check_result with_org
  handle-settles ev db row wu wm ws located =
      let known = any-monitor ev.result.org_id ev.result.monitor_id db.monitors row located in
      let (out, e, p) =
        Returns-elim _ (upsert_result (stamped ev) db)
          (upsert_result-Returns (stamped ev) db known) in
      let located' : find (is_row ev.result.org_id ev.result.monitor_id) out.1.monitors ≡ some row =
        rw p.0 located in
      let (kept, reached) =
        load_and_decide-settles (record (stamped ev) { id = out.0 }) out.0 out.1 row wm ws p.2
          located' in
      (out.0, ground (arith, p, kept), ground (arith, reached))
