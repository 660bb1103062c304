-- ===== src/Scheduler.antt =====
-- internal/scheduler/scheduler.go: which monitors are due at a tick, and the jobs they fan out to.
-- The next-run map is a function from ids. Metrics, spans and log lines are left out, and so is the
-- mutex: one goroutine owns the map. An interval comes from a 32-bit column that the api keeps
-- positive, so its nanoseconds fit an int64. What json.Marshal and the producer do with a job is
-- the parameter `accepts`.
pub mod Spacing
pub mod FanOut
pub mod Sending
use pulse_pager.Prelude.{
  ℕ, ◌+◌, ◌-◌, ◌*◌, ◌/◌, Bool, true, false, ◌&&◌, Option, none, some, List, [], ◌∷◌, ◌++◌, String,
  ltb, ◌==◌, if◌then◌else◌, length, format_int, format_signed, sub_ℕ, is_some, codes,
}
use pulse_pager.Domain.{Time, second, minute, Monitor, MonitorType, is_ssl}

-- region.Default
abbrev pub default_region : String
default_region = "eu-central"

-- store.EnabledMonitor
pub record EnabledMonitor : Type 0 where
  pub monitor : Monitor
  pub last_checked_at : Option Time

-- events.CheckJob
pub record CheckJob : Type 0 where
  pub job_id : List ℕ
  pub org_id : ℕ
  pub region : String
  pub scheduled_at : Time
  pub monitor : Monitor

-- monitor id -> next dispatch time
abbrev pub NextRun : Type 0
NextRun = ℕ → Option Time

abbrev pub plan : ℕ → Time → NextRun → NextRun
plan id t next_run k = if k == id then some t else next_run k

-- A round that was sent out: the monitor, when, when it was due, and its jobs.
pub record Dispatch : Type 0 where
  pub monitor_id : ℕ
  pub at : Time
  pub scheduled_for : Time
  pub jobs : List CheckJob

abbrev pub interval_of : Monitor → ℕ
interval_of m = if m.interval_seconds == 0 then minute else m.interval_seconds * second

-- Seconds from the zero time.Time to 1970, for Unix().
abbrev pub unix_epoch : ℕ
unix_epoch = 62_135_596_800

-- fmt.Sprintf("%d:%s:%d", m.ID, region, dispatchedAt.Unix())
abbrev pub job_id_of : ℕ → String → Time → List ℕ
job_id_of id region at =
    format_int id
    ++ (b':' ∷ (codes region ++ (b':' ∷ format_signed (sub_ℕ (at / second) unix_epoch))))

abbrev first_only : List String → List String
first_only [] = []
first_only (r ∷ rs) = r ∷ []

abbrev or_default : List String → List String
or_default [] = default_region ∷ []
or_default (r ∷ rs) = r ∷ rs

-- The regions of a round.
unfoldable pub regions_of : MonitorType → List String → List String
regions_of type listed =
    let regions = or_default listed in
    if is_ssl type && ltb 1 (length regions) then first_only regions else regions

-- The job of one region.
abbrev pub job_for : Monitor → Time → String → CheckJob
job_for m at region = record {
  job_id = job_id_of m.id region at;
  org_id = m.org_id;
  region = region;
  scheduled_at = at;
  monitor = m;
}

-- The jobs of a round that reach the bus, in the order of the regions.
unfoldable pub produce_all : (CheckJob → Bool) → Monitor → Time → List String → List CheckJob
produce_all accepts m at [] = []
produce_all accepts m at (r ∷ rs) =
    let job = job_for m at r in
    let rest = produce_all accepts m at rs in if accepts job then job ∷ rest else rest

unfoldable pub dispatch : (CheckJob → Bool) → Monitor → Time → Time → Dispatch
unfolding produce_all regions_of
dispatch accepts m at scheduled_for = record {
  monitor_id = m.id;
  at = at;
  scheduled_for = scheduled_for;
  jobs = produce_all accepts m at (regions_of m.type m.regions);
}

-- How late a round is; the source sets a negative lag to 0.
abbrev pub lag : Dispatch → ℕ
lag d = d.at - d.scheduled_for

-- What the tests at the head of the loop say of a monitor.
pub data Due : Type 0 where
  not_yet : Due
  seed : Time → Due
  run : Time → Due

unfoldable pub due : Time → ℕ → Option Time → Option Time → Due
due now interval (some next) last = if ltb now next then not_yet else run next
due now interval none none = run now
due now interval none (some last) =
    if ltb now (last + interval) then seed (last + interval) else run (last + interval)

-- The body of the loop: the map after it, and the round that it sends out.
unfoldable pub visit : (CheckJob → Bool) → Time → EnabledMonitor → NextRun → NextRun × List Dispatch
unfolding due
visit accepts now em next_run =
    let m = em.monitor in
    elim (due now (interval_of m) (next_run m.id) em.last_checked_at) [
      | not_yet ↦ (next_run, [])
      | seed t ↦ (plan m.id t next_run, [])
      | run scheduled_for ↦
          (plan m.id (now + interval_of m) next_run, dispatch accepts m now scheduled_for ∷ [])
    ]

-- The loop of dispatchDue over the monitors.
unfoldable pub visit_all :
    (CheckJob → Bool) → Time → List EnabledMonitor → NextRun → NextRun × List Dispatch
visit_all accepts now [] next_run = (next_run, [])
visit_all accepts now (em ∷ ems) next_run =
    let (next_run', sent) = visit accepts now em next_run in
    let (next_run'', sent') = visit_all accepts now ems next_run' in (next_run'', sent ++ sent')

-- dispatchDue, on what the store lists, or not when the list fails.
unfoldable pub dispatch_due :
    (CheckJob → Bool) → Time → Option (List EnabledMonitor) → NextRun → NextRun × List Dispatch
dispatch_due accepts now none next_run = (next_run, [])
dispatch_due accepts now (some ems) next_run = visit_all accepts now ems next_run

-- One tick: its time and what the store lists then.
abbrev pub Tick : Type 0
Tick = Time × Option (List EnabledMonitor)

-- The loop of Run over the ticks that come.
unfoldable pub run_ticks : (CheckJob → Bool) → List Tick → NextRun → NextRun × List Dispatch
run_ticks accepts [] next_run = (next_run, [])
run_ticks accepts ((now, listed) ∷ ticks) next_run =
    let (next_run', sent) = dispatch_due accepts now listed next_run in
    let (next_run'', sent') = run_ticks accepts ticks next_run' in (next_run'', sent ++ sent')
