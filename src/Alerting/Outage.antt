-- ===== src/Alerting/Outage.antt =====
-- Deliveries of check results to internal/alerting/service.go, in any order and number, and what
-- they make of a monitor's incident.
use pulse_pager.Prelude.{ℕ, ◌≡◌, some, List, [], ◌∷◌}
use pulse_pager.Domain.{Monitor, CheckResult}
use pulse_pager.Store.Db.{lost, Db}
use pulse_pager.Store.Incidents.{get_open_incident}
use pulse_pager.Alerting.Service.{CheckResultEvent, Env, handle}
use pulse_pager.Alerting.Redelivery.{stamped, IsSettled, redelivery-silent}
use pulse_pager.Alerting.Delivery.{Reaches}
use pulse_pager.Alerting.Invariant.{handle-IsValid}
use pulse_pager.Alerting.Current.{
  IsCurrent, IsNew, IsPending, handle-IsCurrent, retry-IsCurrent, attempt-IsCurrent,
}

-- A life of the tables, seen by one monitor. A delivery of one of its checks commits the decision,
-- acknowledged or not: the first delivery, or one after others that stored the result and did not
-- get that far; or it does not commit it; or the result is applied already.
pub data History (sha256_hex : List ℕ → List ℕ) (m : Monitor) (start : Db)
    : List CheckResult → Db → Type 0 where
  here : History sha256_hex m start [] start
  deliver :
      {rs : List CheckResult} {db : Db} (env : Env) (ev : CheckResultEvent)
      → History sha256_hex m start rs db
      → Reaches env
      → IsNew m ev db
      → History sha256_hex m start (stamped ev ∷ rs) (handle sha256_hex env (some ev) db).db
  retry :
      {rs : List CheckResult} {db : Db} (env : Env) (ev : CheckResultEvent)
      → History sha256_hex m start rs db
      → Reaches env
      → IsPending m ev db
      → History sha256_hex m start (stamped ev ∷ rs) (handle sha256_hex env (some ev) db).db
  attempt :
      {rs : List CheckResult} {db : Db} (env : Env) (ev : CheckResultEvent)
      → History sha256_hex m start rs db
      → env.applies ≡ lost
      → History sha256_hex m start rs (handle sha256_hex env (some ev) db).db
  redeliver :
      {rs : List CheckResult} {db : Db} (env : Env) (ev : CheckResultEvent)
      → History sha256_hex m start rs db
      → IsSettled ev db
      → History sha256_hex m start rs (handle sha256_hex env (some ev) db).db

module _ (sha256_hex : List ℕ → List ℕ) where
  again-IsCurrent :
      (env : Env) (m : Monitor) (ev : CheckResultEvent) (rs : List CheckResult) (db : Db)
      → IsSettled ev db
      → IsCurrent m rs db
      → IsCurrent m rs (handle sha256_hex env (some ev) db).db
  unfolding get_open_incident
  again-IsCurrent env m ev rs db s c =
      let (same, _) = redelivery-silent sha256_hex env ev db s in
      record {
        row = c.row;
        is_located = rw same.monitors_same c.is_located;
        is_its = c.is_its;
        tracks = rw same.incidents_same c.tracks;
        owned = rw same.incidents_same c.owned;
        valid = handle-IsValid sha256_hex env (some ev) db c.valid;
      }

  -- Let the checks of a monitor be delivered, with failures before the decision is committed and
  -- retries after them, each check committed before a later one is, and let applied ones be
  -- delivered again any number of times, under any faults. Then the stored state is that of the
  -- checks whose decision was committed, each counted once: the failures since the last check that
  -- passed, the time of the first of them, and an open incident that starts then exactly when
  -- there are such failures and as many as the threshold.
  pub History-IsCurrent :
      (m : Monitor) (start : Db) {rs : List CheckResult} {db : Db}
      → IsCurrent m [] start
      → History sha256_hex m start rs db
      → IsCurrent m rs db
  History-IsCurrent m start c here = c
  History-IsCurrent m start c (deliver {rs} {db} env ev h r n) =
      handle-IsCurrent sha256_hex env m ev rs db r n (History-IsCurrent m start c h)
  History-IsCurrent m start c (retry {rs} {db} env ev h r n) =
      retry-IsCurrent sha256_hex env m ev rs db r n (History-IsCurrent m start c h)
  History-IsCurrent m start c (attempt {rs} {db} env ev h l) =
      attempt-IsCurrent sha256_hex env m ev rs db l (History-IsCurrent m start c h)
  History-IsCurrent m start c (redeliver {rs} {db} env ev h s) =
      again-IsCurrent env m ev rs db s (History-IsCurrent m start c h)
