-- ===== src/Store/Preservation.antt =====
-- The transactions on incidents keep the invariant.
use pulse_pager.Prelude.{
  ℕ, ◌≤◌, ◌<◌, ◌≡◌, refl, Bool, true, false, ◌&&◌, ◌||◌, not, Option, none, some, List, [], ◌∷◌,
  ◌++◌, arith, ◌==◌, is_some, any, count_where, find, update_where, All-append, All-mono,
  All-update_where, All-keep_where, count_where-append, count_where_zero, count_where-update_where,
  count_where-keep_where, Bool-cases, Option-cases, inl, inr,
}
use pulse_pager.Domain.{Monitor, Incident, Time}
use pulse_pager.Store.Db.{Db, Result, ok, err, Link, is_row}
use pulse_pager.Store.Incidents.{
  Decision, AppliedDecision, incident_none, incident_open, incident_close, insert_incident,
  close_incident, act_on_incident, write_counters, is_newer, apply_fresh, apply_decision,
  apply_alert_decision, manual_close_incident, delete_monitor, close_by_hand, delete_rows,
  get_open_incident,
}
use pulse_pager.Store.Invariant.{IsValid, is_open_at, Keeps, with_org-IsValid}

-- Opening one more keeps it at one where none was open.
one_open-append :
    (id : ℕ) (is : List Incident) (new : Incident)
    → any (is_open_at new.monitor_id) is ≡ false
    → count_where (is_open_at id) is ≤ 1
    → count_where (is_open_at id) (is ++ new ∷ []) ≤ 1
unfolding count_where
one_open-append id is new free h = elim (Bool-cases (id == new.monitor_id)) [
  | inl same ↦ ground (
    arith,
    count_where-append (is_open_at id) is (new ∷ []),
    count_where_zero (is_open_at new.monitor_id) is free,
  )
  | inr other ↦ ground (arith, count_where-append (is_open_at id) is (new ∷ []))
]

insert_incident-Keeps :
    (m : Monitor) (id : ℕ) (d : Decision) (db : Db) → IsValid db → Keeps (insert_incident m id d db)
unfolding insert_incident
insert_incident-Keeps m id d db v = elim (Bool-cases (any (is_open_at m.id) db.incidents)) [
  | inl taken ↦
      rw (taken, insert_incident)
        (record {
          one_open = v.one_open;
          results_below = v.results_below;
          incidents_below = All-mono _ _ (λ x h. omega arith) db.incidents v.incidents_below;
          watermarks_below = v.watermarks_below;
        })
  | inr free ↦ elim (Bool-cases (id == 0 || any (λ r. r.id == id) db.check_results)) [
    | inl known ↦
        rw (free, known, insert_incident)
          (record {
            one_open = λ k. one_open-append k db.incidents _ free (v.one_open k);
            results_below = v.results_below;
            incidents_below =
                All-append _ db.incidents _
                  (All-mono _ _ (λ x h. omega arith) db.incidents v.incidents_below)
                  (omega arith, tt);
            watermarks_below = v.watermarks_below;
          })
    | inr gone ↦ rw (free, gone, insert_incident) tt
  ]
]

-- Ending some incidents opens none.
end-IsValid :
    (p : Incident → Bool) (f : Incident → Incident) (db : Db)
    → ((x : Incident) → (f x).id ≡ x.id)
    → ((x : Incident) → is_some (f x).ended_at ≡ true)
    → IsValid db
    → IsValid (record db { incidents = update_where p f db.incidents })
end-IsValid p f db same ended v = record {
  one_open = λ id. omega (
    arith,
    v.one_open id,
    count_where-update_where (is_open_at id) p f (λ x h. ground (arith, ended x)) db.incidents,
  );
  results_below = v.results_below;
  incidents_below = All-update_where _ p f (λ x h. rw (same x) h) db.incidents v.incidents_below;
  watermarks_below = v.watermarks_below;
}

close_incident-Keeps :
    (o : Option Incident) (d : Decision) (db : Db) → IsValid db → Keeps (close_incident o d db)
unfolding close_incident
close_incident-Keeps none d db v = v
close_incident-Keeps (some i) d db v =
    elim (Bool-cases (any (λ row. row.id == i.id && not (is_some row.ended_at)) db.incidents)) [
      | inl found ↦ rw (found, close_incident) (end-IsValid _ _ db (λ x. refl) (λ x. refl) v)
      | inr gone ↦ rw (gone, close_incident) v
    ]

act_on_incident-Keeps :
    (m : Monitor) (id : ℕ) (o : Option Incident) (d : Decision) (db : Db)
    → IsValid db
    → Keeps (act_on_incident m id o d db)
unfolding act_on_incident
act_on_incident-Keeps m id o d db v =
    elim d.action as (λ a. Keeps (act_on_incident m id o (record d { action = a }) db)) [
      | incident_open ↦ insert_incident-Keeps m id (record d { action = incident_open }) db v
      | incident_close ↦ close_incident-Keeps o (record d { action = incident_close }) db v
      | incident_none ↦ v
    ]

abbrev KeepsSeq : {A : Type 0} → ℕ → Result (A × Db) → Type 0
KeepsSeq n (ok (_, db)) = db.result_seq ≡ n
KeepsSeq n (err _) = Unit

act_on_incident-seq :
    (m : Monitor) (id : ℕ) (o : Option Incident) (d : Decision) (db : Db)
    → KeepsSeq db.result_seq (act_on_incident m id o d db)
unfolding act_on_incident
act_on_incident-seq m id o d db = ground arith

write_counters-IsValid :
    (m : Monitor) (id : ℕ) (d : Decision) (db : Db)
    → id < db.result_seq
    → IsValid db
    → IsValid (write_counters m id d db)
unfolding write_counters
write_counters-IsValid m id d db h v = record {
  one_open = v.one_open;
  results_below = v.results_below;
  incidents_below = v.incidents_below;
  watermarks_below = All-update_where _ _ _ (λ x k. ground arith) db.monitors v.watermarks_below;
}

apply_fresh-Keeps :
    (m : Monitor) (id first : ℕ) (d : Decision) (db : Db)
    → id < db.result_seq
    → IsValid db
    → Keeps (apply_fresh m id first d db)
unfolding apply_fresh
apply_fresh-Keeps m id first d db h v =
    go (act_on_incident m first open_inc d db) (act_on_incident-Keeps m first open_inc d db v)
      (act_on_incident-seq m first open_inc d db) refl
  where
    open_inc : Option Incident
    open_inc = get_open_incident m.org_id m.id db

    go :
        (r : Result (AppliedDecision × Db))
        → Keeps r
        → KeepsSeq db.result_seq r
        → act_on_incident m first open_inc d db ≡ r
        → Keeps (apply_fresh m id first d db)
    go (ok (res, db')) k s e =
        rw (e, apply_fresh) (write_counters-IsValid m id d db' (omega arith) k)
    go (err x) k s e = rw (e, apply_fresh) tt

pub apply_decision-Keeps :
    (m : Monitor) (id first : ℕ) (d : Decision) (db : Db)
    → id < db.result_seq
    → IsValid db
    → Keeps (apply_decision m id first d db)
unfolding apply_decision
apply_decision-Keeps m id first d db h v =
    elim (Option-cases (find (is_row m.org_id m.id) db.monitors)) [
      | inl gone ↦ rw (gone, apply_decision) tt
      | inr (row, e) ↦ elim (Bool-cases (is_newer id row.last_applied_result_id)) [
        | inl fresh ↦ rw (e, fresh, apply_decision) (apply_fresh-Keeps m id first d db h v)
        | inr stale ↦ rw (e, stale, apply_decision) v
      ]
    ]

close_by_hand-Keeps :
    (org_id id by_user_id : ℕ) (ended_at : Time) (db : Db)
    → IsValid db
    → Keeps (close_by_hand org_id id by_user_id ended_at db)
unfolding close_by_hand
close_by_hand-Keeps org_id id by_user_id ended_at db v =
    elim (Option-cases (find (λ i. i.id == id && i.org_id == org_id) db.incidents)) [
      | inl gone ↦ rw (gone, close_by_hand) tt
      | inr (got, e) ↦ elim (Bool-cases (is_some got.ended_at)) [
        | inl closed ↦ rw (e, closed, close_by_hand) tt
        | inr still ↦ rw (e, still, close_by_hand) (end-IsValid _ _ db (λ x. refl) (λ x. refl) v)
      ]
    ]

delete_rows-Keeps : (org_id id : ℕ) (db : Db) → IsValid db → Keeps (delete_rows org_id id db)
unfolding delete_rows
delete_rows-Keeps org_id id db v =
    elim (Bool-cases (count_where (is_row org_id id) db.monitors == 0)) [
      | inl nobody ↦ rw (nobody, delete_rows) v
      | inr found ↦
          rw (found, delete_rows)
            (record {
              one_open = λ k. omega (
                arith,
                v.one_open k,
                count_where-keep_where (is_open_at k) (λ i. not (i.monitor_id == id)) db.incidents,
              );
              results_below = All-keep_where _ _ db.check_results v.results_below;
              incidents_below = All-keep_where _ _ db.incidents v.incidents_below;
              watermarks_below = All-keep_where _ _ db.monitors v.watermarks_below;
            })
    ]

-- Whatever decision is applied, and however the connection behaves, a monitor has at most one open
-- incident, and ids and watermarks stay below the identity counters, if the result is a stored one.
pub apply_alert_decision-IsValid :
    (link : Link) (m : Monitor) (id first : ℕ) (d : Decision) (db : Db)
    → id < db.result_seq
    → IsValid db
    → IsValid (apply_alert_decision link m id first d db).0
unfolding apply_alert_decision
apply_alert_decision-IsValid link m id first d db h v =
    with_org-IsValid link _ db v (apply_decision-Keeps m id first d db h v)

-- An operator's close of an incident keeps the invariant of the tables, however the connection
-- behaves.
pub manual_close_incident-IsValid :
    (link : Link) (org_id id by_user_id : ℕ) (ended_at : Time) (db : Db)
    → IsValid db
    → IsValid (manual_close_incident link org_id id by_user_id ended_at db).0
unfolding manual_close_incident
manual_close_incident-IsValid link org_id id by_user_id ended_at db v =
    with_org-IsValid link _ db v (close_by_hand-Keeps org_id id by_user_id ended_at db v)

-- The deletion of a monitor, with its results and incidents, keeps the invariant of the tables,
-- however the connection behaves.
pub delete_monitor-IsValid :
    (link : Link) (org_id id : ℕ) (db : Db)
    → IsValid db
    → IsValid (delete_monitor link org_id id db).0
unfolding delete_monitor
delete_monitor-IsValid link org_id id db v =
    with_org-IsValid link _ db v (delete_rows-Keeps org_id id db v)
