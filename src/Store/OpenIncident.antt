-- ===== src/Store/OpenIncident.antt =====
-- Which incident of a monitor is open after a decision is applied.
use pulse_pager.Prelude.{
  ℕ, ◌≤◌, ◌≡◌, refl, ap, Bool, true, false, ◌&&◌, ◌||◌, not, Option, none, some, List, [], ◌∷◌,
  ◌++◌, arith, ◌==◌, is_some, any, All, count_where, find, update_where, All-append,
  All-update_where, find-append, find-holds, map_some,
}
use pulse_pager.Domain.{Time, Monitor, Incident}
use pulse_pager.Store.Db.{Db, Result, ok, err, is_open_of}
use pulse_pager.Store.Incidents.{
  IncidentAction, Decision, AppliedDecision, incident_none, incident_open, incident_close,
  insert_incident, close_incident, act_on_incident, get_open_incident, new_incident,
}
use pulse_pager.Store.Invariant.{is_open_at}

-- The monitor's incidents carry its org.
abbrev pub OwnedBy : Monitor → Incident → Type 0
OwnedBy m i = (i.monitor_id == m.id) ≡ true → (i.org_id == m.org_id) ≡ true

abbrev pub IsOwned : Monitor → Db → Type 0
IsOwned m db = All (OwnedBy m) db.incidents

-- No incident is open for the monitor in the org, so none is at all.
owned-free :
    (m : Monitor) (is : List Incident)
    → All (OwnedBy m) is
    → find (is_open_of m.org_id m.id) is ≡ none
    → any (is_open_at m.id) is ≡ false
unfolding find
owned-free m [] o e = refl
owned-free m (i ∷ is) o e = ground (arith, o.0, owned-free m is o.1)

-- Nor does ending some of none.
end-none :
    (m : Monitor) (p : Incident → Bool) (f : Incident → Incident) (is : List Incident)
    → ((x : Incident) → is_some (f x).ended_at ≡ true)
    → count_where (is_open_at m.id) is ≡ 0
    → find (is_open_of m.org_id m.id) (update_where p f is) ≡ none
unfolding count_where find update_where
end-none m p f [] ended e = refl
end-none m p f (x ∷ is) ended e = ground (arith, ended x, end-none m p f is ended)

-- Ending the open incident leaves none open.
end-open :
    (m : Monitor) (p : Incident → Bool) (f : Incident → Incident) (is : List Incident)
    (i : Incident)
    → ((x : Incident) → is_some (f x).ended_at ≡ true)
    → p i ≡ true
    → All (OwnedBy m) is
    → count_where (is_open_at m.id) is ≤ 1
    → find (is_open_of m.org_id m.id) is ≡ some i
    → find (is_open_of m.org_id m.id) (update_where p f is) ≡ none
unfolding count_where find update_where
end-open m p f [] i ended hit o c e = cc
end-open m p f (x ∷ is) i ended hit o c e =
    ground (arith, ended x, o.0, end-open m p f is i ended hit o.1, end-none m p f is ended)

-- The start of the incident that is open after the action.
abbrev pub start_after : Decision → Option Incident → Option Time
start_after d open_inc = elim d.action [
  | incident_open ↦ some d.incident_started_at
  | incident_close ↦ none
  | incident_none ↦ map_some (λ (i : Incident). i.started_at) open_inc
]

abbrev pub open_start : Monitor → Db → Option Time
open_start m db = map_some (λ (i : Incident). i.started_at) (get_open_incident m.org_id m.id db)

-- A body that succeeds, with what it leaves.
abbrev pub Opens : Monitor → Option Time → Result (AppliedDecision × Db) → Type 0
Opens m start (ok (_, db)) = IsOwned m db × (open_start m db ≡ start)
Opens m start (err _) = ⊥

append-open :
    (m : Monitor) (is : List Incident) (new : Incident)
    → new.monitor_id ≡ m.id
    → new.org_id ≡ m.org_id
    → new.ended_at ≡ none
    → find (is_open_of m.org_id m.id) is ≡ none
    → find (is_open_of m.org_id m.id) (is ++ new ∷ []) ≡ some new
unfolding find
append-open m is new e e' e'' free =
    ground (arith, find-append (is_open_of m.org_id m.id) is (new ∷ []))

or_true : (b : Bool) → (b || true) ≡ true
or_true b = ground arith

insert_incident-Opens :
    (m : Monitor) (id : ℕ) (d : Decision) (db : Db)
    → IsOwned m db
    → any (λ r. r.id == id) db.check_results ≡ true
    → get_open_incident m.org_id m.id db ≡ none
    → Opens m (some d.incident_started_at) (insert_incident m id d db)
unfolding insert_incident get_open_incident
insert_incident-Opens m id d db o known free =
    let new = new_incident m id d db in
    rw (owned-free m db.incidents o free, known, or_true (id == 0), insert_incident)
      (
        All-append _ db.incidents (new ∷ []) o (λ e. ground arith, tt),
        ap (map_some (λ (i : Incident). i.started_at))
            (append-open m db.incidents new refl refl refl free),
      )

-- The row that was found open can be found again by its id.
any-hit :
    (p : Incident → Bool) (is : List Incident) (i : Incident)
    → find p is ≡ some i
    → is_some i.ended_at ≡ false
    → any (λ row. row.id == i.id && not (is_some row.ended_at)) is ≡ true
unfolding find
any-hit p [] i e h = cc
any-hit p (x ∷ is) i e h = ground (arith, any-hit p is i)

close_incident-Opens :
    (m : Monitor) (i : Incident) (d : Decision) (db : Db)
    → IsOwned m db
    → count_where (is_open_at m.id) db.incidents ≤ 1
    → get_open_incident m.org_id m.id db ≡ some i
    → Opens m none (close_incident (some i) d db)
unfolding close_incident get_open_incident
close_incident-Opens m i d db o c e =
    let hit = find-holds (is_open_of m.org_id m.id) db.incidents e in
    rw (any-hit (is_open_of m.org_id m.id) db.incidents i e (ground arith), close_incident)
      (
        All-update_where _ _ _ (λ x h. h) db.incidents o,
        ap (map_some (λ (i : Incident). i.started_at)) (
            end-open m (λ row. row.id == i.id && not (is_some row.ended_at)) _ db.incidents i
              (λ x. refl) (ground arith) o c e),
      )

-- What the action leaves open, for an action that fits what was open.
pub act_on_incident-Opens :
    (m : Monitor) (id : ℕ) (d : Decision) (db : Db)
    → IsOwned m db
    → count_where (is_open_at m.id) db.incidents ≤ 1
    → any (λ r. r.id == id) db.check_results ≡ true
    → (d.action ≡ incident_open → get_open_incident m.org_id m.id db ≡ none)
    → Opens m
        (start_after d (get_open_incident m.org_id m.id db))
        (act_on_incident m id (get_open_incident m.org_id m.id db) d db)
unfolding act_on_incident
act_on_incident-Opens m id d db o c known free = go d.action refl
  where
    closing :
        (i : Option Incident)
        → get_open_incident m.org_id m.id db ≡ i
        → Opens m none (close_incident i d db)
    closing none e = (o, rw e)
    closing (some i) e = close_incident-Opens m i d db o c e

    go :
        (a : IncidentAction)
        → d.action ≡ a
        → Opens m
            (start_after d (get_open_incident m.org_id m.id db))
            (act_on_incident m id (get_open_incident m.org_id m.id db) d db)
    go incident_open e = rw (e, act_on_incident) (insert_incident-Opens m id d db o known (free e))
    go incident_close e = rw (e, act_on_incident) (closing _ refl)
    go incident_none e = rw (e, act_on_incident) (o, refl)
