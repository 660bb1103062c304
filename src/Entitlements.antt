-- ===== src/Entitlements.antt =====
-- internal/entitlements/entitlements.go: what a plan allows. A plan is the string that is stored, as
-- in the source, and a map from plans is an association list. The resolvers' organisation id, which
-- they ignore, is left out, and so are the overrides with one fixed answer.
pub mod Fallback
pub mod Ladder
use pulse_pager.Prelude.{
  ℕ, Bool, true, false, String, Option, none, some, List, [], ◌∷◌, ltb, if◌then◌else◌, any, map,
  str_eq,
}

abbrev pub Plan : Type 0
Plan = String

abbrev pub tier1 : Plan
tier1 = "tier1"

abbrev pub tier2 : Plan
tier2 = "tier2"

abbrev pub tier3 : Plan
tier3 = "tier3"

abbrev pub tier_custom : Plan
tier_custom = "tierCustom"

unfoldable pub parse_plan : String → Plan
parse_plan s =
    if str_eq s tier2
    then tier2
    else if str_eq s tier3
    then tier3
    else if str_eq s tier_custom
    then tier_custom
    else tier1

unfoldable pub is_known_plan : String → Bool
is_known_plan s =
    if str_eq s tier1
    then true
    else if str_eq s tier2
    then true
    else if str_eq s tier3
    then true
    else if str_eq s tier_custom
    then true
    else false

-- A map from plans that has an entry for each of the four.
pub record PlanMap {ℓ} (A : Type ℓ) : Type ℓ where
  pub on_tier1 : A
  pub on_tier2 : A
  pub on_tier3 : A
  pub on_custom : A

abbrev pub plan_map {ℓ} : {A : Type ℓ} → A → A → A → A → PlanMap A
plan_map a b c d = record { on_tier1 = a; on_tier2 = b; on_tier3 = c; on_custom = d }

unfoldable pub lookup {ℓ} : {A : Type ℓ} → PlanMap A → Plan → Option A
lookup entries p =
    if str_eq p tier1
    then some entries.on_tier1
    else if str_eq p tier2
    then some entries.on_tier2
    else if str_eq p tier3
    then some entries.on_tier3
    else if str_eq p tier_custom
    then some entries.on_custom
    else none

abbrev pub get_or {ℓ} : {A : Type ℓ} → A → Option A → A
get_or fallback none = fallback
get_or fallback (some a) = a

-- The entry of a plan, and of tier1 where the plan is not known.
unfoldable pub entry_or_tier1 {ℓ} : {A : Type ℓ} → PlanMap A → Plan → A
unfolding lookup
entry_or_tier1 entries p = get_or entries.on_tier1 (lookup entries p)

-- What indexing a Go map of bools gives: false where there is no entry.
unfoldable pub is_set : PlanMap Bool → Plan → Bool
unfolding lookup
is_set entries p = get_or false (lookup entries p)

abbrev pub seat_caps : PlanMap ℕ
seat_caps = plan_map 1 3 10 1_000_000

unfoldable pub seat_cap : Plan → ℕ
unfolding entry_or_tier1
seat_cap p = entry_or_tier1 seat_caps p

pub record SeatUsage : Type 0 where
  pub used : ℕ
  pub cap : ℕ

abbrev pub has_free_seat : SeatUsage → Bool
has_free_seat u = ltb u.used u.cap

abbrev pub hard_interval_floor_seconds : ℕ
hard_interval_floor_seconds = 30

pub record MonitorLimits : Type 0 where
  pub monitors_cap : ℕ
  pub min_interval_seconds : ℕ
  pub regions_allowed : List String
  pub regions_per_monitor_cap : ℕ

abbrev limits : ℕ → ℕ → List String → ℕ → MonitorLimits
limits cap floor regions per_monitor = record {
  monitors_cap = cap;
  min_interval_seconds = floor;
  regions_allowed = regions;
  regions_per_monitor_cap = per_monitor;
}

abbrev pub monitor_limits_map : PlanMap MonitorLimits
monitor_limits_map =
    plan_map (limits 10 900 ("eu-central" ∷ []) 1) (limits 25 300 ("eu-central" ∷ []) 1)
      (limits 50 60 ("eu-central" ∷ "us-east" ∷ "us-west" ∷ "sa-east" ∷ []) 4)
      (limits 1000 30 ("eu-central" ∷ "us-east" ∷ "us-west" ∷ "sa-east" ∷ []) 4)

unfoldable pub monitor_limits : Plan → MonitorLimits
unfolding entry_or_tier1
monitor_limits p = entry_or_tier1 monitor_limits_map p

unfoldable pub effective_interval_floor : MonitorLimits → ℕ
effective_interval_floor l =
    if ltb hard_interval_floor_seconds l.min_interval_seconds
    then l.min_interval_seconds
    else hard_interval_floor_seconds

abbrev pub has : String → List String → Bool
has s ss = any (λ t. str_eq t s) ss

unfoldable pub allows_region : MonitorLimits → String → Bool
allows_region l region = has region l.regions_allowed

abbrev pub status_page_caps : PlanMap ℕ
status_page_caps = plan_map 1 3 10 1000

unfoldable pub status_page_cap : Plan → ℕ
unfolding entry_or_tier1
status_page_cap p = entry_or_tier1 status_page_caps p

abbrev pub retention_days : PlanMap ℕ
retention_days = plan_map 7 30 90 180

unfoldable pub retention : Plan → ℕ
unfolding entry_or_tier1
retention p = entry_or_tier1 retention_days p

abbrev pub custom_domain_allowed_map : PlanMap Bool
custom_domain_allowed_map = plan_map false false true true

unfoldable pub custom_domain_allowed : Plan → Bool
unfolding is_set
custom_domain_allowed p = is_set custom_domain_allowed_map p

abbrev pub api_access_allowed_map : PlanMap Bool
api_access_allowed_map = plan_map false true true true

unfoldable pub api_access_allowed : Plan → Bool
unfolding is_set
api_access_allowed p = is_set api_access_allowed_map p

abbrev pub api_write_allowed_map : PlanMap Bool
api_write_allowed_map = plan_map false false true true

unfoldable pub api_write_allowed : Plan → Bool
unfolding is_set
api_write_allowed p = is_set api_write_allowed_map p

abbrev pub api_rate_map : PlanMap ℕ
api_rate_map = plan_map 30 120 300 600

unfoldable pub api_rate_per_min : Plan → ℕ
unfolding entry_or_tier1
api_rate_per_min p = entry_or_tier1 api_rate_map p

abbrev pub channel_types_map : PlanMap (List String)
channel_types_map =
    plan_map ("discord" ∷ "smtp" ∷ "telegram" ∷ [])
      ("slack" ∷ "discord" ∷ "smtp" ∷ "email" ∷ "telegram" ∷ [])
      ("slack" ∷ "discord" ∷ "webhook" ∷ "smtp" ∷ "email" ∷ "telegram" ∷ "pagerduty" ∷ "opsgenie"
        ∷ "teams" ∷ [])
      ("slack" ∷ "discord" ∷ "webhook" ∷ "smtp" ∷ "email" ∷ "telegram" ∷ "pagerduty" ∷ "opsgenie"
        ∷ "teams" ∷ "twilio" ∷ [])

unfoldable pub channel_types_allowed : Plan → List String
unfolding entry_or_tier1
channel_types_allowed p = entry_or_tier1 channel_types_map p

pub record CheckNowLimits : Type 0 where
  pub cooldown_seconds : ℕ
  pub max_per_window : ℕ
  pub window_seconds : ℕ

abbrev check_now : ℕ → ℕ → ℕ → CheckNowLimits
check_now cooldown most window = record {
  cooldown_seconds = cooldown;
  max_per_window = most;
  window_seconds = window;
}

abbrev pub check_now_limits_map : PlanMap CheckNowLimits
check_now_limits_map =
    plan_map (check_now 60 10 1800) (check_now 30 30 1800) (check_now 20 60 1800)
      (check_now 10 200 1800)

unfoldable pub check_now_limits_for : Plan → CheckNowLimits
unfolding entry_or_tier1
check_now_limits_for p = entry_or_tier1 check_now_limits_map p

-- FailureSnapshotAllowed
unfoldable pub failure_snapshot_allowed : Plan → Bool
failure_snapshot_allowed p = true

pub record PlanEntry : Type 0 where
  pub plan : Plan
  pub entry_monitors_cap : ℕ
  pub entry_min_interval_seconds : ℕ
  pub seats_cap : ℕ
  pub status_pages_cap : ℕ
  pub entry_retention_days : ℕ
  pub entry_regions_allowed : List String
  pub entry_regions_per_monitor_cap : ℕ
  pub entry_custom_domain : Bool
  pub entry_api_access : Bool
  pub entry_api_write : Bool
  pub entry_api_rate : ℕ
  pub channel_types : List String

abbrev pub catalog_order : List Plan
catalog_order = tier1 ∷ tier2 ∷ tier3 ∷ tier_custom ∷ []

-- Indexing a map with no test for the key: the zero value where there is none.
abbrev no_limits : MonitorLimits
no_limits = limits 0 0 [] 0

unfoldable pub catalog_entry : Plan → PlanEntry
unfolding lookup effective_interval_floor is_set
catalog_entry p =
    let ml = get_or no_limits (lookup monitor_limits_map p) in
    record {
      plan = p;
      entry_monitors_cap = ml.monitors_cap;
      entry_min_interval_seconds = effective_interval_floor ml;
      seats_cap = get_or 0 (lookup seat_caps p);
      status_pages_cap = get_or 0 (lookup status_page_caps p);
      entry_retention_days = get_or 0 (lookup retention_days p);
      entry_regions_allowed = ml.regions_allowed;
      entry_regions_per_monitor_cap = ml.regions_per_monitor_cap;
      entry_custom_domain = is_set custom_domain_allowed_map p;
      entry_api_access = is_set api_access_allowed_map p;
      entry_api_write = is_set api_write_allowed_map p;
      entry_api_rate = get_or 0 (lookup api_rate_map p);
      channel_types = get_or [] (lookup channel_types_map p);
    }

unfoldable pub catalog : List PlanEntry
unfolding catalog_entry
catalog = map catalog_entry catalog_order
