-- ===== src/Tests/Scheduler.antt =====
-- The theorems on internal/scheduler/scheduler.go, at concrete values.
use pulse_pager.Prelude.{
  ◌+◌, ◌*◌, ◌≡◌, refl, Bool, true, false, none, some, List, [], ◌∷◌, arith, str_eq,
}
use pulse_pager.Domain.{second, minute, hour}
use pulse_pager.Scheduler.{
  EnabledMonitor, CheckJob, NextRun, Tick, visit, visit_all, dispatch_due, run_ticks, dispatch,
}
use pulse_pager.Scheduler.Spacing.{sends, dispatch_due-spacing}
use pulse_pager.Scheduler.Sending.{SendsOut, dispatch_due-SendsOut}
use pulse_pager.Tests.{web_monitor, cert_monitor, noon}

abbrev takes_all : CheckJob → Bool
takes_all job = true

abbrev unplanned : NextRun
unplanned id = none

-- Every monitor is planned for noon.
abbrev at_noon : NextRun
at_noon id = some noon

abbrev web_entry : EnabledMonitor
web_entry = record { monitor = web_monitor; last_checked_at = some hour }

abbrev entries : List EnabledMonitor
entries = web_entry ∷ record { monitor = cert_monitor; last_checked_at = none } ∷ []

abbrev half_past : Tick
half_past = (noon + 30 * second, some entries)

dispatch_due-spacing_example :
    sends 1
      (run_ticks takes_all
        (half_past ∷ [])
        (dispatch_due takes_all noon (some entries) unplanned).0).1
    ≡ false
unfolding dispatch_due visit_all visit dispatch
dispatch_due-spacing_example =
    dispatch_due-spacing takes_all noon entries unplanned 1 minute (omega arith)
      ((λ e. refl), ((λ e. absurd (ground arith)), tt)) refl (half_past ∷ []) (omega arith, tt)

-- A bus that is down for one region.
abbrev takes_us : CheckJob → Bool
takes_us job = str_eq job.region "us-east"

dispatch_due-SendsOut_example :
    SendsOut takes_us
      (noon + minute)
      noon
      web_entry
      (dispatch_due takes_us (noon + minute) (some entries) at_noon).1
dispatch_due-SendsOut_example =
    dispatch_due-SendsOut takes_us (noon + minute) noon web_entry []
      (record { monitor = cert_monitor; last_checked_at = none } ∷ []) at_noon refl refl
      (omega arith)
