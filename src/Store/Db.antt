-- ===== src/Store/Db.antt =====
-- internal/store/store.go and the tables of internal/store/schema.sql, as far as the alerting path
-- uses them. A transaction is a function on the tables, and one that fails leaves them as they
-- were. SQL statements are written as what PostgreSQL documents of them: an identity column draws
-- its next number also for an INSERT that ends in ON CONFLICT, and an INSERT that names a missing
-- row by a foreign key fails. Row level security adds no condition: every statement names the org.
use pulse_pager.Prelude.{
  ◌≡◌, refl, ◌⊎◌, inl, inr, ℕ, ℤ, Bool, ◌&&◌, not, Option, List, ◌==◌, is_some, str_eq,
}
use pulse_pager.Domain.{Time, Monitor, CheckResult, Incident}

-- A row of monitors: the configuration and the alert columns.
pub record MonitorRow : Type 0 where
  pub monitor : Monitor
  pub consecutive_fails : ℕ
  pub first_fail_at : Option Time
  pub last_applied_result_id : Option ℕ
  pub ssl_warned_days : Option ℤ

pub record Db : Type 0 where
  pub monitors : List MonitorRow
  pub check_results : List CheckResult
  pub incidents : List Incident
  -- the next numbers of the identity columns, from 1 on
  pub result_seq : ℕ
  pub incident_seq : ℕ

-- What a call returns in place of a result: pgx.ErrNoRows, ErrIncidentNotOpen, a violated foreign
-- key, or any other failure of the database.
pub data Error : Type 0 where
  no_rows incident_not_open foreign_key unavailable : Error

pub data Result {ℓ} (A : Type ℓ) : Type ℓ where
  ok : A → Result A
  err : Error → Result A

-- How the connection behaves during one transaction: it works, it is lost before the commit, or
-- the commit is done and its acknowledgement is lost.
pub data Link : Type 0 where
  works lost commit_unknown : Link

pub Link-cases : (l : Link) → (l ≡ works) ⊎ (l ≡ lost) ⊎ (l ≡ commit_unknown)
Link-cases works = inl refl
Link-cases lost = inr (inl refl)
Link-cases commit_unknown = inr (inr refl)

-- A transaction body: the new tables and a value, or an error.
abbrev pub Tx : Type 0 → Type 0
Tx A = Db → Result (A × Db)

abbrev pub settle : {A : Type 0} → Link → Db → Result (A × Db) → Db × Result A
settle works db (ok (a, db')) = (db', ok a)
settle works db (err e) = (db, err e)
settle lost db _ = (db, err unavailable)
settle commit_unknown db (ok (a, db')) = (db', err unavailable)
settle commit_unknown db (err e) = (db, err e)

-- WithOrg: begin, run the body, commit, or roll back on an error.
unfoldable pub with_org : {A : Type 0} → Link → Tx A → Db → Db × Result A
with_org link body db = settle link db (body db)

-- WHERE id = $1 AND org_id = $2
abbrev pub is_row : ℕ → ℕ → MonitorRow → Bool
is_row org_id id row = row.monitor.id == id && row.monitor.org_id == org_id

-- WHERE monitor_id = $1 AND org_id = $2 AND ended_at IS NULL
abbrev pub is_open_of : ℕ → ℕ → Incident → Bool
is_open_of org_id monitor_id inc =
    inc.monitor_id == monitor_id && inc.org_id == org_id && not (is_some inc.ended_at)

-- The key of ON CONFLICT (org_id, monitor_id, region, checked_at).
abbrev pub same_result : CheckResult → CheckResult → Bool
same_result a b =
    a.org_id == b.org_id
    && a.monitor_id == b.monitor_id
    && str_eq a.region b.region
    && a.checked_at == b.checked_at
