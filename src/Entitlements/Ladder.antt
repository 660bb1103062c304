-- ===== src/Entitlements/Ladder.antt =====
-- internal/entitlements/entitlements.go: each plan grants all that the plans below it do, and the
-- catalog shows what the resolvers grant.
use pulse_pager.Prelude.{
  ℕ, ◌*◌, ◌≤◌, if◌then◌else◌, leb, ◌&&◌, ◌||◌, not, ◌≡◌, inl, inr, refl, sym, subst, ap, ◌∙◌, Bool,
  true, String, some, find, List, [], ◌∷◌, Bool-cases, str_eq, arith,
}
use pulse_pager.Scheduler.{default_region}
use pulse_pager.Entitlements.{
  Plan, tier1, tier2, tier3, tier_custom, parse_plan, MonitorLimits, has, lookup, entry_or_tier1,
  is_set, monitor_limits, effective_interval_floor, allows_region, hard_interval_floor_seconds,
  catalog, catalog_entry, PlanEntry, seat_cap, status_page_cap, retention, custom_domain_allowed,
  api_access_allowed, api_write_allowed, api_rate_per_min, channel_types_allowed,
  check_now_limits_for, CheckNowLimits,
}
use pulse_pager.Entitlements.Fallback.{Grant, grant, grant-parse_plan}

-- The place of one of the four plans on the ladder.
abbrev pub rung : Plan → ℕ
rung p =
    if str_eq p tier2
    then 1
    else if str_eq p tier3
    then 2
    else if str_eq p tier_custom
    then 3
    else 0

abbrev pub is_subset : List String → List String → Bool
is_subset [] bs = true
is_subset (a ∷ rest) bs = has a bs && is_subset rest bs

abbrev implies : Bool → Bool → Bool
implies a b = not a || b

-- Does the second allow as many checks now per second as the first, over a window?
abbrev pub is_no_slower : CheckNowLimits → CheckNowLimits → Bool
is_no_slower a b = leb (a.max_per_window * b.window_seconds) (b.max_per_window * a.window_seconds)

-- Does every allowance of the first grant hold in the second?
unfoldable pub is_within : Grant → Grant → Bool
unfolding effective_interval_floor
is_within g h =
    leb g.seats h.seats
    && (leb g.monitors.monitors_cap h.monitors.monitors_cap
        && (leb (effective_interval_floor h.monitors) (effective_interval_floor g.monitors)
            && (is_subset g.monitors.regions_allowed h.monitors.regions_allowed
                && (leb g.monitors.regions_per_monitor_cap h.monitors.regions_per_monitor_cap
                    && (leb g.pages h.pages
                        && (leb g.days h.days
                            && (implies g.domain h.domain
                                && (implies g.api_access h.api_access
                                    && (implies g.api_write h.api_write
                                        && (leb g.api_rate h.api_rate
                                            && (is_subset g.channels h.channels
                                                && (leb h.check_now.cooldown_seconds
                                                      g.check_now.cooldown_seconds
                                                    && (leb g.check_now.max_per_window
                                                          h.check_now.max_per_window
                                                        && (is_no_slower g.check_now h.check_now
                                                            && implies g.failure_snapshot
                                                            h.failure_snapshot))))))))))))))

by_parsed :
    (Q : Plan → Type 0)
    → Q tier1
    → Q tier2
    → Q tier3
    → Q tier_custom
    → (p : Plan) → Q (parse_plan p)
unfolding parse_plan
by_parsed Q a b c d p = elim (Bool-cases (str_eq p tier2)) [
  | inl e ↦ rw (e, parse_plan) b
  | inr n2 ↦ elim (Bool-cases (str_eq p tier3)) [
    | inl e ↦ rw (n2, e, parse_plan) c
    | inr n3 ↦ elim (Bool-cases (str_eq p tier_custom)) [
      | inl e ↦ rw (n2, n3, e, parse_plan) d
      | inr n4 ↦ rw (n2, n3, n4, parse_plan) a
    ]
  ]
]

Climbs : Plan → Plan → Type 0
Climbs p q = rung p ≤ rung q → is_within (grant p) (grant q) ≡ true

climbs : (p q : Plan) → Climbs (parse_plan p) (parse_plan q)
unfolding Climbs is_within grant seat_cap monitor_limits status_page_cap retention
    custom_domain_allowed api_access_allowed api_write_allowed api_rate_per_min
    channel_types_allowed check_now_limits_for entry_or_tier1 is_set lookup effective_interval_floor
climbs p =
    by_parsed (λ a. (q : Plan) → Climbs a (parse_plan q))
      (by_parsed (Climbs tier1) (λ h. refl) (λ h. refl) (λ h. refl) (λ h. refl))
      (by_parsed (Climbs tier2) (λ h. absurd (omega arith)) (λ h. refl) (λ h. refl) (λ h. refl))
      (by_parsed (Climbs tier3) (λ h. absurd (omega arith)) (λ h. absurd (omega arith)) (λ h. refl)
        (λ h. refl))
      (by_parsed (Climbs tier_custom) (λ h. absurd (omega arith)) (λ h. absurd (omega arith))
        (λ h. absurd (omega arith)) (λ h. refl))
      p

-- Of two stored plans, the one that parses to the higher tier grants all that the other does: no
-- cap, floor, region, channel type, flag or rate gets tighter on the way up, be it the most checks now
-- in a window or their number over the length of the window.
pub grant-is_within :
    (p q : Plan) → rung (parse_plan p) ≤ rung (parse_plan q) → is_within (grant p) (grant q) ≡ true
unfolding Climbs
grant-is_within p q h =
    ap (λ g. is_within g (grant q)) (grant-parse_plan p)
    ∙ ap (is_within (grant (parse_plan p))) (grant-parse_plan q)
    ∙ climbs p q h

Serves : Plan → Type 0
Serves p =
    (allows_region (grant p).monitors default_region ≡ true)
    × (1 ≤ (grant p).monitors.regions_per_monitor_cap)
    × (hard_interval_floor_seconds ≤ (grant p).monitors.min_interval_seconds)

serves : (p : Plan) → Serves (parse_plan p)
unfolding Serves grant monitor_limits entry_or_tier1 lookup allows_region
serves =
    by_parsed Serves (refl, omega arith, omega arith) (refl, omega arith, omega arith)
      (refl, omega arith, omega arith) (refl, omega arith, omega arith)

-- Every stored plan, known or not, allows the region that the scheduler falls back to, lets a
-- monitor have at least one region, and has the hard floor below its own, which is then its
-- effective one.
pub monitor_limits-serve :
    (p : Plan)
    → (allows_region (monitor_limits p) default_region ≡ true)
      × (1 ≤ (monitor_limits p).regions_per_monitor_cap)
      × (hard_interval_floor_seconds ≤ (monitor_limits p).min_interval_seconds)
      × (effective_interval_floor (monitor_limits p) ≡ (monitor_limits p).min_interval_seconds)
unfolding grant Serves effective_interval_floor
monitor_limits-serve p =
    let s : Serves p = subst served (sym (ap (λ g. g.monitors) (grant-parse_plan p))) (serves p) in
    (s.0, s.1, s.2, ground arith)
  where
    served : MonitorLimits → Type 0
    served l =
        (allows_region l default_region ≡ true)
        × (1 ≤ l.regions_per_monitor_cap)
        × (hard_interval_floor_seconds ≤ l.min_interval_seconds)

-- The row of the catalog that shows what the resolvers grant a plan.
abbrev pub row_of : Plan → PlanEntry
row_of p = record {
  plan = p;
  entry_monitors_cap = (monitor_limits p).monitors_cap;
  entry_min_interval_seconds = effective_interval_floor (monitor_limits p);
  seats_cap = seat_cap p;
  status_pages_cap = status_page_cap p;
  entry_retention_days = retention p;
  entry_regions_allowed = (monitor_limits p).regions_allowed;
  entry_regions_per_monitor_cap = (monitor_limits p).regions_per_monitor_cap;
  entry_custom_domain = custom_domain_allowed p;
  entry_api_access = api_access_allowed p;
  entry_api_write = api_write_allowed p;
  entry_api_rate = api_rate_per_min p;
  channel_types = channel_types_allowed p;
}

-- Each stored plan has a row in the catalog, that of the plan it parses to, and it shows what the
-- resolvers grant.
pub catalog-row_of :
    (p : Plan) → find (λ e. str_eq e.plan (parse_plan p)) catalog ≡ some (row_of (parse_plan p))
unfolding catalog catalog_entry find grant seat_cap monitor_limits status_page_cap retention
    custom_domain_allowed api_access_allowed api_write_allowed api_rate_per_min
    channel_types_allowed check_now_limits_for entry_or_tier1 is_set lookup effective_interval_floor
catalog-row_of =
    by_parsed (λ p. find (λ e. str_eq e.plan p) catalog ≡ some (row_of p)) refl refl refl refl
