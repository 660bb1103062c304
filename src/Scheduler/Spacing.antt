-- ===== src/Scheduler/Spacing.antt =====
-- internal/scheduler/scheduler.go, dispatchDue and Run: when a monitor is sent out.
use pulse_pager.Prelude.{
  ℕ, ◌+◌, ◌≤◌, ◌<◌, ◌≡◌, ◌↔◌, refl, sym, ap, subst, ◌∙◌, Bool, true, false, Option, none, some,
  List, [], ◌∷◌, arith, ◌==◌, ltb, any, All, any-append, Bool-cases, inl, inr, ◌⊎◌, ==_iff,
}
use pulse_pager.Domain.{Time}
use pulse_pager.Scheduler.{
  EnabledMonitor, CheckJob, NextRun, Dispatch, interval_of, dispatch, Due, due, visit, visit_all,
  dispatch_due, Tick, run_ticks,
}

-- Does a list of rounds hold one of the monitor?
abbrev pub sends : ℕ → List Dispatch → Bool
sends id ds = any (λ d. d.monitor_id == id) ds

-- When a monitor is due, from what is known of it.
abbrev pub due_time_of : Time → ℕ → Option Time → Option Time → Time
due_time_of now interval (some next) last = next
due_time_of now interval none (some last) = last + interval
due_time_of now interval none none = now

abbrev pub due_time : Time → NextRun → EnabledMonitor → Time
due_time now next_run em =
    due_time_of now (interval_of em.monitor) (next_run em.monitor.id) em.last_checked_at

-- Is a monitor listed?
abbrev pub lists : ℕ → List EnabledMonitor → Bool
lists id ems = any (λ em. em.monitor.id == id) ems

-- Every entry of the monitor has this interval.
abbrev pub HasInterval : ℕ → ℕ → List EnabledMonitor → Type 0
HasInterval id interval ems = All (λ em. em.monitor.id ≡ id → interval_of em.monitor ≡ interval) ems

-- What `due` answers, against the reference time.
abbrev pub Agrees : Time → Time → Due → Type 0
Agrees now t Due.not_yet = now < t
Agrees now t (Due.seed t') = (now < t) × (t' ≡ t)
Agrees now t (Due.run t') = (t ≤ now) × (t' ≡ t)

pub due-Agrees :
    (now interval : ℕ) (next last : Option Time)
    → Agrees now (due_time_of now interval next last) (due now interval next last)
unfolding due
due-Agrees now interval none none = (omega arith, refl)
due-Agrees now interval none (some last) = elim (Bool-cases (ltb now (last + interval))) [
  | inl e ↦ rw e (ground arith, refl)
  | inr e ↦ rw e (ground arith, refl)
]
due-Agrees now interval (some next) last = elim (Bool-cases (ltb now next)) [
  | inl e ↦ rw e (ground arith)
  | inr e ↦ rw e (ground arith, refl)
]

pub Due-cases :
    (d : Due) → (d ≡ Due.not_yet) ⊎ ((t : Time) × (d ≡ Due.seed t)) ⊎ ((t : Time) × (d ≡ Due.run t))
Due-cases Due.not_yet = inl refl
Due-cases (Due.seed t) = inr (inl (t, refl))
Due-cases (Due.run t) = inr (inr (t, refl))

module _ (accepts : CheckJob → Bool) where
  -- At a tick a monitor is sent out exactly when it is due by then: at its planned time, or, if
  -- none is planned, an interval after its last check, or at once if it was never checked. The
  -- round carries the time it was due at.
  pub visit-sends_iff :
      (now : Time) (em : EnabledMonitor) (next_run : NextRun)
      → ((sends em.monitor.id (visit accepts now em next_run).1 ≡ true)
          ↔ (due_time now next_run em ≤ now))
        × All
            (λ (d : Dispatch). d.scheduled_for ≡ due_time now next_run em)
            (visit accepts now em next_run).1
  unfolding visit dispatch
  visit-sends_iff now em next_run =
      let m = em.monitor in
      let d = due now (interval_of m) (next_run m.id) em.last_checked_at in
      let agrees = due-Agrees now (interval_of m) (next_run m.id) em.last_checked_at in
      elim (Due-cases d) [
        | inl e ↦ rw (e, visit) (ground (arith, rw e at agrees), tt)
        | inr (inl (t, e)) ↦ rw (e, visit) (ground (arith, rw e at agrees), tt)
        | inr (inr (t, e)) ↦
            rw (e, visit) (ground (arith, rw e at agrees), ((rw e at agrees).1, tt))
      ]

  -- A visit touches the plan of its own monitor only, and sends no other.
  pub visit-other :
      (now : Time) (em : EnabledMonitor) (next_run : NextRun) (id : ℕ)
      → (em.monitor.id == id) ≡ false
      → ((visit accepts now em next_run).0 id ≡ next_run id)
        × (sends id (visit accepts now em next_run).1 ≡ false)
  unfolding visit dispatch
  visit-other now em next_run id other =
      let m = em.monitor in
      elim (Due-cases (due now (interval_of m) (next_run m.id) em.last_checked_at)) [
        | inl e ↦ rw (e, visit) (refl, refl)
        | inr (inl (t, e)) ↦ rw (e, visit) (ground arith)
        | inr (inr (t, e)) ↦ rw (e, visit) (ground arith)
      ]

  -- A round that goes out plans the next one an interval later.
  visit-plans :
      (now : Time) (em : EnabledMonitor) (next_run : NextRun)
      → sends em.monitor.id (visit accepts now em next_run).1 ≡ true
      → (visit accepts now em next_run).0 em.monitor.id ≡ some (now + interval_of em.monitor)
  unfolding visit dispatch
  visit-plans now em next_run sent =
      let m = em.monitor in
      elim (Due-cases (due now (interval_of m) (next_run m.id) em.last_checked_at)) [
        | inl e ↦ absurd (ground (arith, rw (e, visit) at sent))
        | inr (inl (t, e)) ↦ absurd (ground (arith, rw (e, visit) at sent))
        | inr (inr (t, e)) ↦ rw (e, visit) (ground arith)
      ]

  -- A monitor that is planned for later stays so, and is not sent.
  visit-waits :
      (now : Time) (em : EnabledMonitor) (next_run : NextRun) (t : Time)
      → next_run em.monitor.id ≡ some t
      → now < t
      → ((visit accepts now em next_run).0 em.monitor.id ≡ some t)
        × (sends em.monitor.id (visit accepts now em next_run).1 ≡ false)
  unfolding visit due
  visit-waits now em next_run t e h =
      let later : due now (interval_of em.monitor) (next_run em.monitor.id) em.last_checked_at
          ≡ Due.not_yet =
        ground arith in
      rw (later, visit) (e, refl)

  visit_all-waits :
      (now : Time) (ems : List EnabledMonitor) (next_run : NextRun) (id : ℕ) (t : Time)
      → next_run id ≡ some t
      → now < t
      → ((visit_all accepts now ems next_run).0 id ≡ some t)
        × (sends id (visit_all accepts now ems next_run).1 ≡ false)
  unfolding visit_all
  visit_all-waits now [] next_run id t e h = (e, refl)
  visit_all-waits now (em ∷ ems) next_run id t e h =
      let first = visit accepts now em next_run in
      let head : (first.0 id ≡ some t) × (sends id first.1 ≡ false) = visit-keeps in
      let rest = visit_all-waits now ems first.0 id t head.0 h in
      (rest.0, any-append _ first.1 _ ∙ rw head.1 rest.1)
    where
      visit-keeps :
          ((visit accepts now em next_run).0 id ≡ some t)
          × (sends id (visit accepts now em next_run).1 ≡ false)
      visit-keeps = elim (Bool-cases (em.monitor.id == id)) [
        | inl same ↦
            let same_id : em.monitor.id ≡ id = (==_iff _ _).0 same in
            subst
              (λ k.
                ((visit accepts now em next_run).0 k ≡ some t)
                × (sends k (visit accepts now em next_run).1 ≡ false))
              same_id (visit-waits now em next_run t (ap next_run same_id ∙ e) h)
        | inr other ↦ let kept = visit-other now em next_run id other in (kept.0 ∙ e, kept.1)
      ]

  run_ticks-waits :
      (ticks : List Tick) (next_run : NextRun) (id : ℕ) (t : Time)
      → next_run id ≡ some t
      → All (λ (tick : Tick). tick.0 < t) ticks
      → sends id (run_ticks accepts ticks next_run).1 ≡ false
  unfolding run_ticks dispatch_due
  run_ticks-waits [] next_run id t e h = refl
  run_ticks-waits ((now, none) ∷ ticks) next_run id t e h =
      run_ticks-waits ticks next_run id t e h.1
  run_ticks-waits ((now, some ems) ∷ ticks) next_run id t e h =
      let first = visit_all-waits now ems next_run id t e h.0 in
      let rest = run_ticks-waits ticks (visit_all accepts now ems next_run).0 id t first.0 h.1 in
      any-append _ (visit_all accepts now ems next_run).1 _ ∙ rw first.1 rest

  visit_all-plans :
      (now : Time) (ems : List EnabledMonitor) (next_run : NextRun) (id interval : ℕ)
      → 0 < interval
      → HasInterval id interval ems
      → sends id (visit_all accepts now ems next_run).1 ≡ true
      → (visit_all accepts now ems next_run).0 id ≡ some (now + interval)
  unfolding visit_all
  visit_all-plans now [] next_run id interval pos same sent = absurd (ground arith)
  visit_all-plans now (em ∷ ems) next_run id interval pos same sent =
      let first = visit accepts now em next_run in
      elim (Bool-cases (sends id first.1)) [
        | inl here ↦
            (visit_all-waits now ems first.0 id (now + interval) (planned here) (omega arith)).0
        | inr not_here ↦
            visit_all-plans now ems first.0 id interval pos same.1
              (rw not_here at (sym (any-append _ first.1 _) ∙ sent))
      ]
    where
      planned :
          sends id (visit accepts now em next_run).1 ≡ true
          → (visit accepts now em next_run).0 id ≡ some (now + interval)
      planned here = elim (Bool-cases (em.monitor.id == id)) [
        | inl eq ↦
            let same_id : em.monitor.id ≡ id = (==_iff _ _).0 eq in
            sym (ap (visit accepts now em next_run).0 same_id)
            ∙ visit-plans now em next_run
                (subst (λ k. sends k (visit accepts now em next_run).1 ≡ true) (sym same_id) here)
            ∙ ap (λ i. some (now + i)) (same.0 same_id)
        | inr other ↦ absurd (ground (arith, visit-other now em next_run id other))
      ]

  -- A monitor that one tick sends out is not sent again by any tick less than its interval later,
  -- whatever the store lists then, where every entry of the first list has the one interval.
  pub dispatch_due-spacing :
      (now : Time) (ems : List EnabledMonitor) (next_run : NextRun) (id interval : ℕ)
      → 0 < interval
      → HasInterval id interval ems
      → sends id (dispatch_due accepts now (some ems) next_run).1 ≡ true
      → (ticks : List Tick) → All (λ (tick : Tick). tick.0 < now + interval) ticks
      → sends id (run_ticks accepts ticks (dispatch_due accepts now (some ems) next_run).0).1
        ≡ false
  unfolding dispatch_due
  dispatch_due-spacing now ems next_run id interval pos same sent ticks soon =
      run_ticks-waits ticks _ id (now + interval)
        (visit_all-plans now ems next_run id interval pos same sent) soon

  -- A monitor that the store lists at or after its planned time has a round in that tick.
  pub dispatch_due-sends :
      (now : Time) (ems : List EnabledMonitor) (next_run : NextRun) (id : ℕ) (t : Time)
      → lists id ems ≡ true
      → next_run id ≡ some t
      → t ≤ now
      → sends id (dispatch_due accepts now (some ems) next_run).1 ≡ true
  unfolding dispatch_due visit_all
  dispatch_due-sends now [] next_run id t listed e late = absurd (ground arith)
  dispatch_due-sends now (em ∷ ems) next_run id t listed e late =
      let first = visit accepts now em next_run in
      any-append _ first.1 _ ∙ elim (Bool-cases (em.monitor.id == id)) [
        | inl eq ↦ rw (here ((==_iff _ _).0 eq)) refl
        | inr other ↦
            let kept = visit-other now em next_run id other in
            rw kept.1
              (dispatch_due-sends now ems first.0 id t (rw other at listed) (kept.0 ∙ e) late)
      ]
    where
      here : em.monitor.id ≡ id → sends id (visit accepts now em next_run).1 ≡ true
      here same =
          subst (λ k. sends k (visit accepts now em next_run).1 ≡ true) same
            ((visit-sends_iff now em next_run).0.1 due_by_now)
        where
          planned : next_run em.monitor.id ≡ some t
          planned = ap next_run same ∙ e

          due_by_now : due_time now next_run em ≤ now
          due_by_now = rw planned late
