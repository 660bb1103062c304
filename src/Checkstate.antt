-- ===== src/Checkstate.antt =====
-- internal/checkstate/checkstate.go: the live state of each region of a monitor. Rollup takes the
-- list of the values of the hash, since it does not read the keys. The lifetime of the hash, the
-- failures of Redis and json, and the reads, which only decode, are left out.
pub mod Rollup
pub mod Reports
use pulse_pager.Prelude.{
  ℕ, ◌+◌, ◌-◌, ◌*◌, Bool, true, false, Option, none, some, List, [], ◌∷◌, ◌++◌, String, str_eq, any,
  update_where, ltb, leb, ◌==◌, if◌then◌else◌,
}
use pulse_pager.Domain.{Time, second, hour, FailureReason, DownPolicy}

-- The lifecycle of a region; `other` is any other text that a stored value may hold.
pub data ChipState : Type 0 where
  scheduled running done failed other : ChipState

pub record RegionState : Type 0 where
  pub state : ChipState
  pub healthy : Option Bool
  pub status_code : Option ℕ
  pub latency_ms : Option ℕ
  pub failure_reason : Option FailureReason
  pub updated_at : Time

pub record Outcome : Type 0 where
  pub was_healthy : Bool
  pub outcome_status_code : Option ℕ
  pub outcome_latency_ms : Option ℕ
  pub outcome_failure_reason : Option FailureReason

abbrev min_ttl : ℕ
min_ttl = hour

-- In nanoseconds. An interval fits a 32-bit column, so the product fits an int64.
unfoldable pub ttl_for : ℕ → ℕ
ttl_for interval_seconds =
    let ttl = interval_seconds * 3 * second in if ltb ttl min_ttl then min_ttl else ttl

-- What each mark writes for its region, at a time.
unfoldable pub mark_scheduled : Time → RegionState
mark_scheduled now = record {
  state = scheduled;
  healthy = none;
  status_code = none;
  latency_ms = none;
  failure_reason = none;
  updated_at = now;
}

unfoldable pub mark_running : Time → RegionState
mark_running now = record {
  state = running;
  healthy = none;
  status_code = none;
  latency_ms = none;
  failure_reason = none;
  updated_at = now;
}

unfoldable pub mark_result : Outcome → Time → RegionState
mark_result o now = record {
  state = if o.was_healthy then done else failed;
  healthy = some o.was_healthy;
  status_code = o.outcome_status_code;
  latency_ms = o.outcome_latency_ms;
  failure_reason = o.outcome_failure_reason;
  updated_at = now;
}

-- The hash of a monitor: the states by region.
abbrev pub Hash : Type 0
Hash = List (String × RegionState)

abbrev pub of_region : String → String × RegionState → Bool
of_region region e = str_eq e.0 region

-- writeRegion, where json and Redis do their part
unfoldable pub write_region : String → RegionState → Hash → Hash
write_region region rs h =
    if any (of_region region) h
    then update_where (of_region region) (λ e. (e.0, rs)) h
    else h ++ (region, rs) ∷ []

pub data Phase : Type 0 where
  pending in_progress complete : Phase

pub record Counts : Type 0 where
  pub total : ℕ
  pub terminal : ℕ
  pub waiting : ℕ
  pub up : ℕ

abbrev pub is_up : Option Bool → ℕ
is_up (some true) = 1
is_up (some false) = 0
is_up none = 0

-- One round of the loop of Rollup.
unfoldable pub tally : RegionState → Counts → Counts
tally rs c = elim rs.state [
  | scheduled ↦ record {
    total = c.total + 1;
    terminal = c.terminal;
    waiting = c.waiting + 1;
    up = c.up;
  }
  | done ↦ record {
    total = c.total + 1;
    terminal = c.terminal + 1;
    waiting = c.waiting;
    up = c.up + is_up rs.healthy;
  }
  | failed ↦ record {
    total = c.total + 1;
    terminal = c.terminal + 1;
    waiting = c.waiting;
    up = c.up + is_up rs.healthy;
  }
  | running ↦ record { total = c.total + 1; terminal = c.terminal; waiting = c.waiting; up = c.up }
  | other ↦ record { total = c.total + 1; terminal = c.terminal; waiting = c.waiting; up = c.up }
]

-- The loop.
unfoldable pub tally_all : List RegionState → Counts → Counts
unfolding tally
tally_all [] c = c
tally_all (rs ∷ rest) c = tally_all rest (tally rs c)

unfoldable pub reduce_healthy : ℕ → ℕ → DownPolicy → Bool
reduce_healthy healthy total DownPolicy.all = ltb (total - healthy) total
reduce_healthy healthy total DownPolicy.quorum = leb ((total - healthy) * 2) total
reduce_healthy healthy total DownPolicy.any = total - healthy == 0

-- The switch at the end of Rollup.
unfoldable pub phase_of : Counts → DownPolicy → Phase × Option Bool
unfolding reduce_healthy
phase_of c policy =
    if c.terminal == c.total
    then (complete, some (reduce_healthy c.up c.total policy))
    else if c.waiting == c.total
    then (pending, none)
    else (in_progress, none)

unfoldable pub rollup : List RegionState → DownPolicy → Phase × Option Bool
unfolding tally_all phase_of
rollup [] policy = (pending, none)
rollup (rs ∷ rest) policy =
    phase_of (tally_all (rs ∷ rest) (record { total = 0; terminal = 0; waiting = 0; up = 0 }))
      policy
