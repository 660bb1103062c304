-- ===== src/Store/Invariant.antt =====
-- What holds of the tables between transactions: at most one open incident for each monitor, and
-- ids and watermarks below the identity counters.
use pulse_pager.Prelude.{
  ℕ, ◌≤◌, ◌<◌, ◌≡◌, Bool, true, ◌&&◌, not, arith, ◌==◌, is_some, any, All, count_where, find,
  All-append, All-mono, Bool-cases, Option-cases, inl, inr,
}
use pulse_pager.Domain.{CheckResult, Incident}
use pulse_pager.Store.Db.{
  MonitorRow, Db, Result, ok, err, Link, works, lost, commit_unknown, Tx, settle, with_org,
  same_result,
}
use pulse_pager.Store.Incidents.{upsert_result, is_newer}

abbrev pub is_open_at : ℕ → Incident → Bool
is_open_at id i = i.monitor_id == id && not (is_some i.ended_at)

abbrev pub WatermarkBelow : ℕ → MonitorRow → Type 0
WatermarkBelow seq row = is_newer seq row.last_applied_result_id ≡ true

pub record IsValid (db : Db) : Type 0 where
  pub one_open : (id : ℕ) → count_where (is_open_at id) db.incidents ≤ 1
  pub results_below : All (λ (r : CheckResult). r.id < db.result_seq) db.check_results
  pub incidents_below : All (λ (i : Incident). i.id < db.incident_seq) db.incidents
  pub watermarks_below : All (WatermarkBelow db.result_seq) db.monitors

-- A transaction body that keeps the invariant where it succeeds.
abbrev pub Keeps : {A : Type 0} → Result (A × Db) → Type 0
Keeps (ok (_, db)) = IsValid db
Keeps (err _) = Unit

-- WithOrg keeps the invariant if its body does, however the connection behaves.
pub with_org-IsValid :
    {A : Type 0} (link : Link) (body : Tx A) (db : Db)
    → IsValid db
    → Keeps (body db)
    → IsValid (with_org link body db).0
unfolding with_org
with_org-IsValid {A} link body db v k = go link (body db) k
  where
    go : (l : Link) (r : Result (A × Db)) → Keeps r → IsValid (settle l db r).0
    go works (ok (a, db')) k = k
    go works (err e) k = v
    go lost (ok (a, db')) k = v
    go lost (err e) k = v
    go commit_unknown (ok (a, db')) k = k
    go commit_unknown (err e) k = v

pub upsert_result-Keeps : (r : CheckResult) (db : Db) → IsValid db → Keeps (upsert_result r db)
unfolding upsert_result
upsert_result-Keeps r db v = elim (Option-cases (find (same_result r) db.check_results)) [
  | inl new ↦ elim (Bool-cases (any (λ row. row.monitor.id == r.monitor_id) db.monitors)) [
    | inl known ↦
        rw (new, known, upsert_result)
          (record {
            one_open = v.one_open;
            results_below =
                All-append _ db.check_results _
                  (All-mono _ _ (λ x h. omega arith) db.check_results v.results_below)
                  (omega arith, tt);
            incidents_below = v.incidents_below;
            watermarks_below = All-mono _ _ (λ x h. ground arith) db.monitors v.watermarks_below;
          })
    | inr gone ↦ rw (new, gone, upsert_result) tt
  ]
  | inr (old, e) ↦
      rw (e, upsert_result)
        (record {
          one_open = v.one_open;
          results_below = All-mono _ _ (λ x h. omega arith) db.check_results v.results_below;
          incidents_below = v.incidents_below;
          watermarks_below = All-mono _ _ (λ x h. ground arith) db.monitors v.watermarks_below;
        })
]
