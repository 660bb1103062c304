-- ===== src/Scheduler/Sending.antt =====
-- internal/scheduler/scheduler.go, dispatchDue: the jobs that a due monitor puts on the bus.
use pulse_pager.Prelude.{
  ℕ, ◌≤◌, ◌≡◌, refl, ap, ◌∙◌, Bool, false, Option, some, List, [], ◌∷◌, ◌++◌, arith, ◌==◌,
}
use pulse_pager.Domain.{Time}
use pulse_pager.Scheduler.{
  EnabledMonitor, CheckJob, NextRun, Dispatch, interval_of, dispatch, Due, due, visit, visit_all,
  dispatch_due,
}
use pulse_pager.Scheduler.Spacing.{lists, visit-other}
use pulse_pager.Scheduler.FanOut.{wanted_jobs, dispatch-wanted_jobs}

append_assoc : (xs ys zs : List Dispatch) → xs ++ (ys ++ zs) ≡ (xs ++ ys) ++ zs
append_assoc [] ys zs = refl
append_assoc (x ∷ xs) ys zs = ap (λ rest. x ∷ rest) (append_assoc xs ys zs)

-- One of the rounds is the monitor's.
abbrev pub SendsOut : (CheckJob → Bool) → Time → Time → EnabledMonitor → List Dispatch → Type 0
SendsOut accepts now t em rounds =
    (earlier later : List Dispatch) × (d : Dispatch) × (rounds ≡ earlier ++ d ∷ later)
    × (d.monitor_id ≡ em.monitor.id)
    × (d.at ≡ now)
    × (d.scheduled_for ≡ t)
    × (d.jobs ≡ wanted_jobs accepts em.monitor now)

due-planned :
    (now t interval : ℕ) (last : Option Time) → t ≤ now → due now interval (some t) last ≡ Due.run t
unfolding due
due-planned now t interval last h = ground arith

module _ (accepts : CheckJob → Bool) (now t : Time) (em : EnabledMonitor) where
  visit-SendsOut :
      (next_run : NextRun) (rest : List Dispatch)
      → next_run em.monitor.id ≡ some t
      → t ≤ now
      → SendsOut accepts now t em ((visit accepts now em next_run).1 ++ rest)
  unfolding visit dispatch
  visit-SendsOut next_run rest planned late =
      let is_due : due now (interval_of em.monitor) (next_run em.monitor.id) em.last_checked_at
          ≡ Due.run t =
        rw planned (due-planned now t (interval_of em.monitor) em.last_checked_at late) in
      rw (is_due, visit)
        (
          [],
          rest,
          dispatch accepts em.monitor now t,
          refl,
          refl,
          refl,
          refl,
          dispatch-wanted_jobs accepts em.monitor now t,
        )

  -- A monitor that the store lists, with no entry of the same id before it, at or after its planned
  -- time is sent out by that tick: one of the tick's rounds is of the monitor, bears that time, and
  -- has a job for each of its regions that the bus takes, in their order and with the monitor's id,
  -- org and region and the time of the tick. A round of an http monitor reaches each of its regions
  -- and one of an ssl monitor the first; the default region stands in for an empty list.
  pub dispatch_due-SendsOut :
      (before after : List EnabledMonitor) (next_run : NextRun)
      → lists em.monitor.id before ≡ false
      → next_run em.monitor.id ≡ some t
      → t ≤ now
      → SendsOut accepts now t em
          (dispatch_due accepts now (some (before ++ em ∷ after)) next_run).1
  unfolding dispatch_due visit_all
  dispatch_due-SendsOut [] after next_run first planned late =
      visit-SendsOut next_run _ planned late
  dispatch_due-SendsOut (other ∷ before) after next_run first planned late =
      let (next, sent) = visit accepts now other next_run in
      let (is_other, none_before) = split in
      let (kept, none_sent) = visit-other accepts now other next_run em.monitor.id is_other in
      let (earlier, later, d, rounds, of_it, at_it, for_it, jobs) =
        dispatch_due-SendsOut before after next none_before (kept ∙ planned) late in
      (
        sent ++ earlier,
        later,
        d,
        ap (λ rest. sent ++ rest) rounds ∙ append_assoc sent earlier (d ∷ later),
        of_it,
        at_it,
        for_it,
        jobs,
      )
    where
      split : ((other.monitor.id == em.monitor.id) ≡ false) × (lists em.monitor.id before ≡ false)
      split = ground arith
