-- ===== src/Tests/Access.antt =====
-- The theorems on internal/authz/authz.go, internal/entitlements/entitlements.go and
-- internal/checker/statuscodes.go, at concrete values.
use pulse_pager.Prelude.{
  ℕ, ◌≤◌, ◌<◌, ◌≡◌, ◌↔◌, refl, true, List, [], ◌∷◌, arith, any, codes, count_where,
}
use pulse_pager.Authz.{Role, Action, ActorKind, Actor, Resource, Decision, can}
use pulse_pager.Authz.Roles.{rank, lowest_rank, InOrg, KeepsOwners, can-allow_iff}
use pulse_pager.Authz.Owners.{owners, can-change_keeps_owner}
use pulse_pager.Entitlements.{tier3, parse_plan}
use pulse_pager.Entitlements.Fallback.{grant}
use pulse_pager.Entitlements.Ladder.{is_within, grant-is_within}
use pulse_pager.StatusCodes.{Matcher, Result, matches, parse_status_codes}
use pulse_pager.StatusCodes.Printed.{Entry, print, covers, parse_status_codes-print}

abbrev owner_actor : Actor
owner_actor = record {
  kind = ActorKind.human;
  user_id = 5;
  key_id = 0;
  org_id = 7;
  role = Role.owner;
}

-- One of two owners, who is to be an admin.
abbrev demotion : Resource
demotion = record {
  resource_org = 7;
  target_role = Role.owner;
  new_role = Role.admin;
  owner_count = 2;
}

can-allow_iff_example : (can owner_actor Action.change_member_role demotion ≡ Decision.allow) ↔ (
    InOrg owner_actor Action.change_member_role demotion
    × (ActorKind.human ≡ ActorKind.api_key
        → lowest_rank Action.change_member_role < rank Role.owner)
    × (lowest_rank Action.change_member_role ≤ rank Role.owner)
    × KeepsOwners owner_actor Action.change_member_role demotion)
can-allow_iff_example = can-allow_iff owner_actor Action.change_member_role demotion

can-change_keeps_owner_example : 1 ≤ owners (Role.viewer ∷ Role.admin ∷ Role.owner ∷ [])
unfolding can count_where
can-change_keeps_owner_example =
    can-change_keeps_owner owner_actor demotion (Role.viewer ∷ []) (Role.owner ∷ []) refl
      (omega arith) refl

grant-is_within_example : is_within (grant "gold") (grant tier3) ≡ true
unfolding parse_plan
grant-is_within_example = grant-is_within "gold" tier3 (omega arith)

-- "2xx,404"
abbrev printed : List ℕ
printed = print (Entry.hundreds 2) (Entry.code 4 0 4 ∷ [])

printed_test : printed ≡ codes "2xx,404"
printed_test = refl

parse_status_codes-print_example :
    (m : Matcher) × (parse_status_codes printed ≡ Result.ok m)
    × ((n : ℕ) → matches m n ≡ any (λ x. covers x n) (Entry.hundreds 2 ∷ Entry.code 4 0 4 ∷ []))
parse_status_codes-print_example =
    parse_status_codes-print (Entry.hundreds 2) (Entry.code 4 0 4 ∷ []) (omega arith, omega arith)
      ((omega arith, omega arith, omega arith, omega arith), tt)
