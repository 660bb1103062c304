-- ===== src/Entitlements/Fallback.antt =====
-- internal/entitlements/entitlements.go: a plan that is not known gets what tier1 gets.
use pulse_pager.Prelude.{
  ℕ, ◌≡◌, ◌↔◌, inl, inr, refl, sym, subst, ap, ◌∙◌, Bool, true, false, String, List, Bool-cases,
  str_eq, eq_iff, arith,
}
use pulse_pager.Entitlements.{
  Plan, tier1, tier2, tier3, tier_custom, parse_plan, is_known_plan, MonitorLimits, CheckNowLimits,
  PlanMap, lookup, entry_or_tier1, is_set, seat_cap, monitor_limits, status_page_cap, retention,
  custom_domain_allowed, api_access_allowed, api_write_allowed, api_rate_per_min,
  channel_types_allowed, check_now_limits_for, failure_snapshot_allowed,
}

-- All that a plan grants, resolver by resolver.
pub record Grant : Type 0 where
  pub seats : ℕ
  pub monitors : MonitorLimits
  pub pages : ℕ
  pub days : ℕ
  pub domain : Bool
  pub api_access : Bool
  pub api_write : Bool
  pub api_rate : ℕ
  pub channels : List String
  pub check_now : CheckNowLimits
  pub failure_snapshot : Bool

unfoldable pub grant : Plan → Grant
unfolding seat_cap monitor_limits status_page_cap retention custom_domain_allowed api_access_allowed
    api_write_allowed api_rate_per_min channel_types_allowed check_now_limits_for
    failure_snapshot_allowed
grant p = record {
  seats = seat_cap p;
  monitors = monitor_limits p;
  pages = status_page_cap p;
  days = retention p;
  domain = custom_domain_allowed p;
  api_access = api_access_allowed p;
  api_write = api_write_allowed p;
  api_rate = api_rate_per_min p;
  channels = channel_types_allowed p;
  check_now = check_now_limits_for p;
  failure_snapshot = failure_snapshot_allowed p;
}

abbrev IsUnknown : Plan → Type 0
IsUnknown p =
    (str_eq p tier1 ≡ false)
    × (str_eq p tier2 ≡ false)
    × (str_eq p tier3 ≡ false)
    × (str_eq p tier_custom ≡ false)

-- To show a fact of every plan, show it of the four and of a string that is none of them.
pub by_plan :
    (P : Plan → Type 0)
    → P tier1
    → P tier2
    → P tier3
    → P tier_custom
    → ((p : Plan) → IsUnknown p → P p)
    → (p : Plan) → P p
by_plan P a b c d other p = elim (Bool-cases (str_eq p tier1)) [
  | inl e ↦ subst P (sym ((eq_iff p tier1).0 e)) a
  | inr n1 ↦ elim (Bool-cases (str_eq p tier2)) [
    | inl e ↦ subst P (sym ((eq_iff p tier2).0 e)) b
    | inr n2 ↦ elim (Bool-cases (str_eq p tier3)) [
      | inl e ↦ subst P (sym ((eq_iff p tier3).0 e)) c
      | inr n3 ↦ elim (Bool-cases (str_eq p tier_custom)) [
        | inl e ↦ subst P (sym ((eq_iff p tier_custom).0 e)) d
        | inr n4 ↦ other p (n1, n2, n3, n4)
      ]
    ]
  ]
]

parse-unknown : (p : Plan) → IsUnknown p → parse_plan p ≡ tier1
unfolding parse_plan
parse-unknown p (n1, n2, n3, n4) = ground arith

entry-unknown {ℓ} :
    {A : Type ℓ} (entries : PlanMap A) (p : Plan)
    → IsUnknown p
    → entry_or_tier1 entries p ≡ entry_or_tier1 entries tier1
unfolding entry_or_tier1 lookup
entry-unknown entries p (n1, n2, n3, n4) = rw (n1, n2, n3, n4, lookup) refl

set-unknown : (entries : PlanMap Bool) (p : Plan) → IsUnknown p → is_set entries p ≡ false
unfolding is_set lookup
set-unknown entries p (n1, n2, n3, n4) = rw (n1, n2, n3, n4, lookup) refl

grant-unknown : (p : Plan) → IsUnknown p → grant p ≡ grant tier1
unfolding grant seat_cap monitor_limits status_page_cap retention custom_domain_allowed
    api_access_allowed api_write_allowed api_rate_per_min channel_types_allowed check_now_limits_for
    entry_or_tier1 is_set lookup
grant-unknown p (n1, n2, n3, n4) = rw (n1, n2, n3, n4, lookup) refl

-- A plan grants exactly what the plan that it parses to grants, in every resolver: a string that is
-- none of the four never grants more than the free tier.
pub grant-parse_plan : (p : Plan) → grant p ≡ grant (parse_plan p)
unfolding parse_plan
grant-parse_plan =
    by_plan (λ p. grant p ≡ grant (parse_plan p)) refl refl refl refl
      (λ p unknown. grant-unknown p unknown ∙ sym (ap grant (parse-unknown p unknown)))

-- The plans that an operator may set are those that are stored as they are read.
pub is_known_plan_iff : (p : Plan) → (is_known_plan p ≡ true) ↔ (parse_plan p ≡ p)
unfolding is_known_plan parse_plan
is_known_plan_iff =
    by_plan (λ p. (is_known_plan p ≡ true) ↔ (parse_plan p ≡ p)) (ground arith) (ground arith)
      (ground arith) (ground arith) (λ p unknown. other p unknown)
  where
    other : (p : Plan) → IsUnknown p → (is_known_plan p ≡ true) ↔ (parse_plan p ≡ p)
    other p (n1, n2, n3, n4) = (
      ground arith,
      λ same.
          absurd (ground (arith, (eq_iff p tier1).1 (sym same ∙ parse-unknown p (n1, n2, n3, n4)))),
    )
