-- ===== src/Alerting/Invariant.antt =====
-- The handler of internal/alerting/service.go keeps the invariant of the tables.
use pulse_pager.Prelude.{
  ℕ, ◌<◌, ◌≡◌, refl, Option, none, some, List, arith, find, ◌⊎◌, inl, inr, Option-cases, All-find,
}
use pulse_pager.Domain.{Monitor, CheckResult, AlertState}
use pulse_pager.Store.Db.{Db, Error, Result, ok, err, Link, with_org, same_result}
use pulse_pager.Store.Incidents.{
  apply_alert_decision, upsert_result, upsert_check_result, get_monitor, get_alert_state,
  select_monitor, select_alert_state,
}
use pulse_pager.Store.Invariant.{IsValid, with_org-IsValid, upsert_result-Keeps}
use pulse_pager.Store.Preservation.{apply_alert_decision-IsValid}
use pulse_pager.Alerting.Engine.{apply}
use pulse_pager.Alerting.Redelivery.{stamped}
use pulse_pager.Alerting.Service.{
  CheckResultEvent, Env, to_store_decision, decide, load_state, load_and_decide, handle,
}

pub Result-cases :
    {A : Type 0} (r : Result A) → ((e : Error) × (r ≡ err e)) ⊎ ((a : A) × (r ≡ ok a))
Result-cases (ok a) = inr (a, refl)
Result-cases (err e) = inl (e, refl)

-- A reading transaction leaves the tables alone, whatever the connection does.
pub get_monitor-db :
    (link : Link) (org_id id : ℕ) (db : Db) → (get_monitor link org_id id db).0 ≡ db
unfolding get_monitor with_org select_monitor
get_monitor-db link org_id id db = ground arith

pub get_alert_state-db :
    (link : Link) (org_id id : ℕ) (db : Db) → (get_alert_state link org_id id db).0 ≡ db
unfolding get_alert_state with_org select_alert_state
get_alert_state-db link org_id id db = ground arith

-- The id that the upsert returns has been drawn from the counter.
stored-below :
    (r : CheckResult) (db : Db) (out : ℕ × Db)
    → IsValid db
    → upsert_result r db ≡ ok out
    → out.0 < out.1.result_seq
unfolding upsert_result
stored-below r db out v e = elim (Option-cases (find (same_result r) db.check_results)) [
  | inl new ↦ ground arith
  | inr (old, h) ↦ ground (arith, All-find _ _ db.check_results v.results_below h)
]

upsert_check_result-below :
    (link : Link) (r : CheckResult) (db : Db) (id : ℕ)
    → IsValid db
    → (upsert_check_result link r db).1 ≡ ok id
    → id < (upsert_check_result link r db).0.result_seq
unfolding upsert_check_result with_org
upsert_check_result-below link r db id v e = elim (Result-cases (upsert_result r db)) [
  | inl (x, h) ↦ absurd (ground arith)
  | inr (out, h) ↦ ground (arith, stored-below r db out v h)
]

upsert_check_result-IsValid :
    (link : Link) (r : CheckResult) (db : Db)
    → IsValid db
    → IsValid (upsert_check_result link r db).0
unfolding upsert_check_result
upsert_check_result-IsValid link r db v = with_org-IsValid link _ db v (upsert_result-Keeps r db v)

module _ (sha256_hex : List ℕ → List ℕ) (env : Env) where
  pub decide-db :
      (m : Monitor) (res : CheckResult) (id : ℕ) (state : AlertState) (db : Db)
      → (decide sha256_hex env m res id state db).db
        ≡ (apply_alert_decision env.applies m id id (to_store_decision (apply m res state)) db).0
  unfolding decide
  decide-db m res id state db = ground arith

  load_state-IsValid :
      (m : Monitor) (res : CheckResult) (id : ℕ) (db : Db)
      → id < db.result_seq
      → IsValid db
      → IsValid (load_state sha256_hex env m res id db).db
  unfolding load_state
  load_state-IsValid m res id db h v =
      elim (Result-cases (get_alert_state env.gets_state m.org_id m.id db).1) [
        | inl (x, e) ↦
            rw (e, load_state) (rw (get_alert_state-db env.gets_state m.org_id m.id db) v)
        | inr (state, e) ↦
            rw (e, load_state)
              (rw (get_alert_state-db env.gets_state m.org_id m.id db, decide-db m res id state db)
                (apply_alert_decision-IsValid env.applies m id id _ db h v))
      ]

  load_and_decide-IsValid :
      (res : CheckResult) (id : ℕ) (db : Db)
      → id < db.result_seq
      → IsValid db
      → IsValid (load_and_decide sha256_hex env res id db).db
  unfolding load_and_decide
  load_and_decide-IsValid res id db h v =
      elim (Result-cases (get_monitor env.gets_monitor res.org_id res.monitor_id db).1) [
        | inl (x, e) ↦
            rw (e, load_and_decide)
              (rw (get_monitor-db env.gets_monitor res.org_id res.monitor_id db) v)
        | inr (m, e) ↦
            rw (e, load_and_decide)
              (rw (get_monitor-db env.gets_monitor res.org_id res.monitor_id db)
                (load_state-IsValid m res id db h v))
      ]

  -- Whatever record arrives and however the database and the bus behave, a monitor has at most one
  -- open incident afterwards, and every id and every watermark lies below its identity counter.
  pub handle-IsValid :
      (ev : Option CheckResultEvent) (db : Db)
      → IsValid db
      → IsValid (handle sha256_hex env ev db).db
  unfolding handle
  handle-IsValid none db v = v
  handle-IsValid (some ev) db v =
      let kept = upsert_check_result-IsValid env.upserts (stamped ev) db v in
      elim (Result-cases (upsert_check_result env.upserts (stamped ev) db).1) [
        | inl (x, e) ↦ rw (e, handle) kept
        | inr (id, e) ↦
            rw (e, handle)
              (load_and_decide-IsValid (record (stamped ev) { id = id }) id _
                (upsert_check_result-below env.upserts (stamped ev) db id v e) kept)
      ]
