-- ===== src/Authz/Roles.antt =====
-- internal/authz/authz.go, Can and roleActions: who may do what.
use pulse_pager.Prelude.{ℕ, true, false, ◌≡◌, ◌≢◌, ◌↔◌, ◌⊎◌, ◌≤◌, ◌<◌, arith}
use pulse_pager.Authz.{
  Role, Action, ActorKind, Actor, Resource, Decision, role_permits, role_actions, owner_only, can,
  crosses_org, action_guard, guard_change_role, guard_remove_member, is_last_owner,
}

-- The ladder of the roles, and the lowest rung that an action is open to.
abbrev pub rank : Role → ℕ
rank Role.unset = 0
rank Role.viewer = 1
rank Role.member = 2
rank Role.admin = 3
rank Role.owner = 4

abbrev pub lowest_rank : Action → ℕ
lowest_rank Action.view_monitoring = 1
lowest_rank Action.view_members = 1
lowest_rank Action.create_organization = 1
lowest_rank Action.manage_monitors = 2
lowest_rank Action.manage_channels = 2
lowest_rank Action.ack_incident = 2
lowest_rank Action.manage_status_pages = 2
lowest_rank Action.manage_billing = 4
lowest_rank Action.transfer_ownership = 4
lowest_rank Action.delete_organization = 4
lowest_rank _ = 3

-- The sets of the roles are nested: a role may take an action exactly when it stands at or above
-- the lowest role that may.
pub role_permits_iff :
    (role : Role) (action : Action)
    → (role_permits role action ≡ true) ↔ (lowest_rank action ≤ rank role)
unfolding role_permits role_actions
role_permits_iff role action = ground arith

-- What the resource must say besides: an admin leaves owners alone, and the last owner stays one.
abbrev pub KeepsOwners : Actor → Action → Resource → Type 0
KeepsOwners actor Action.change_member_role r =
    (actor.role ≡ Role.admin → (r.target_role ≢ Role.owner) × (r.new_role ≢ Role.owner))
    × (r.target_role ≡ Role.owner → r.new_role ≢ Role.owner → 1 < r.owner_count)
KeepsOwners actor Action.remove_member r =
    (actor.role ≡ Role.admin → r.target_role ≢ Role.owner)
    × (r.target_role ≡ Role.owner → 1 < r.owner_count)
KeepsOwners actor _ r = Unit

-- The resource is the actor's own organisation's, or of none.
abbrev pub InOrg : Actor → Action → Resource → Type 0
InOrg actor action r =
    (action ≡ Action.create_organization) ⊎ (r.resource_org ≡ 0) ⊎ (r.resource_org ≡ actor.org_id)

crosses_org_lem :
    (actor : Actor) (action : Action) (r : Resource)
    → (crosses_org actor action r ≡ false) ↔ InOrg actor action r
unfolding crosses_org
crosses_org_lem actor action r = ground arith

change_guard :
    (actor : Actor) (r : Resource)
    → (guard_change_role actor r ≡ Decision.allow) ↔ KeepsOwners actor Action.change_member_role r
unfolding guard_change_role is_last_owner
change_guard actor r = ground arith

remove_guard :
    (actor : Actor) (r : Resource)
    → (guard_remove_member actor r ≡ Decision.allow) ↔ KeepsOwners actor Action.remove_member r
unfolding guard_remove_member is_last_owner
remove_guard actor r = ground arith

action_guard_lem :
    (actor : Actor) (action : Action) (r : Resource)
    → (action_guard actor action r ≡ Decision.allow) ↔ KeepsOwners actor action r
unfolding action_guard
action_guard_lem actor Action.change_member_role r = change_guard actor r
action_guard_lem actor Action.remove_member r = remove_guard actor r
action_guard_lem actor action r = ground arith

-- An action is allowed exactly when the resource is in the actor's organisation (or names none, or
-- the action founds one), the role is high enough, an API key does not take an owner's action, an
-- admin touches no owner, and the last owner stays one.
pub can-allow_iff :
    (actor : Actor) (action : Action) (r : Resource)
    → (can actor action r ≡ Decision.allow) ↔ (
        InOrg actor action r
        × (actor.kind ≡ ActorKind.api_key → lowest_rank action < rank Role.owner)
        × (lowest_rank action ≤ rank actor.role)
        × KeepsOwners actor action r)
unfolding can owner_only
can-allow_iff actor action r =
    let org = crosses_org_lem actor action r in
    let role = role_permits_iff actor.role action in
    let guard = action_guard_lem actor action r in ground arith
