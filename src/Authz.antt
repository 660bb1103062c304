-- ===== src/Authz.antt =====
-- internal/authz/authz.go: the role gate. A user, key and organisation id is a number, and 0 is an
-- id that is not set. An action and an actor kind are data types; a denial's reason keeps its text.
pub mod Roles
pub mod Owners
use pulse_pager.Prelude.{
  ℕ, Bool, true, false, not, ◌&&◌, ◌||◌, String, List, [], ◌∷◌, leb, ◌==◌, if◌then◌else◌, any,
}

-- domain.Role; `unset` is the empty role.
pub data Role : Type 0 where
  unset viewer member admin owner : Role

pub data Action : Type 0 where
  view_monitoring manage_monitors manage_channels ack_incident close_incident : Action
  manage_status_pages configure_custom_domain : Action
  view_members invite_member manage_invitation change_member_role remove_member : Action
  view_audit_log edit_org_settings manage_api_keys manage_webhooks view_billing : Action
  manage_billing transfer_ownership delete_organization : Action
  create_organization : Action

pub data ActorKind : Type 0 where
  human api_key : ActorKind

pub record Actor : Type 0 where
  pub kind : ActorKind
  pub user_id : ℕ
  pub key_id : ℕ
  pub org_id : ℕ
  pub role : Role

pub record Resource : Type 0 where
  pub resource_org : ℕ
  pub target_role : Role
  pub new_role : Role
  pub owner_count : ℕ

pub data Decision : Type 0 where
  allow : Decision
  deny : String → Decision

-- The number of an action, for the comparison of two.
abbrev action_number : Action → ℕ
action_number view_monitoring = 0
action_number manage_monitors = 1
action_number manage_channels = 2
action_number ack_incident = 3
action_number close_incident = 4
action_number manage_status_pages = 5
action_number configure_custom_domain = 6
action_number view_members = 7
action_number invite_member = 8
action_number manage_invitation = 9
action_number change_member_role = 10
action_number remove_member = 11
action_number view_audit_log = 12
action_number edit_org_settings = 13
action_number manage_api_keys = 14
action_number manage_webhooks = 15
action_number view_billing = 16
action_number manage_billing = 17
action_number transfer_ownership = 18
action_number delete_organization = 19
action_number create_organization = 20

abbrev pub same_action : Action → Action → Bool
same_action a b = action_number a == action_number b

abbrev pub is_owner : Role → Bool
is_owner owner = true
is_owner _ = false

abbrev pub is_admin : Role → Bool
is_admin admin = true
is_admin _ = false

abbrev pub is_api_key : ActorKind → Bool
is_api_key api_key = true
is_api_key human = false

-- The map roleActions; a role that it lacks has no action.
unfoldable pub role_actions : Role → List Action
role_actions unset = []
role_actions viewer = view_monitoring ∷ view_members ∷ create_organization ∷ []
role_actions member =
    view_monitoring ∷ view_members ∷ create_organization ∷ manage_monitors ∷ manage_channels
    ∷ ack_incident ∷ manage_status_pages ∷ []
role_actions admin =
    view_monitoring ∷ view_members ∷ create_organization ∷ manage_monitors ∷ manage_channels
    ∷ ack_incident ∷ manage_status_pages ∷ close_incident ∷ configure_custom_domain ∷ invite_member
    ∷ manage_invitation ∷ change_member_role ∷ remove_member ∷ view_audit_log ∷ edit_org_settings
    ∷ manage_api_keys ∷ manage_webhooks ∷ view_billing ∷ []
role_actions owner =
    view_monitoring ∷ view_members ∷ create_organization ∷ manage_monitors ∷ manage_channels
    ∷ ack_incident ∷ manage_status_pages ∷ close_incident ∷ configure_custom_domain ∷ invite_member
    ∷ manage_invitation ∷ change_member_role ∷ remove_member ∷ view_audit_log ∷ edit_org_settings
    ∷ manage_api_keys ∷ manage_webhooks ∷ view_billing ∷ manage_billing ∷ transfer_ownership
    ∷ delete_organization ∷ []

unfoldable pub role_permits : Role → Action → Bool
unfolding role_actions
role_permits role action = any (same_action action) (role_actions role)

unfoldable pub owner_only : Action → Bool
owner_only manage_billing = true
owner_only transfer_ownership = true
owner_only delete_organization = true
owner_only _ = false

unfoldable pub is_last_owner : Resource → Bool
is_last_owner r = leb r.owner_count 1

unfoldable pub guard_change_role : Actor → Resource → Decision
unfolding is_last_owner
guard_change_role actor r =
    if is_admin actor.role && (is_owner r.target_role || is_owner r.new_role)
    then deny "admin cannot change a role to or from owner"
    else if is_owner r.target_role && (not (is_owner r.new_role) && is_last_owner r)
    then deny "cannot demote the last owner; transfer ownership first"
    else allow

unfoldable pub guard_remove_member : Actor → Resource → Decision
unfolding is_last_owner
guard_remove_member actor r =
    if is_admin actor.role && is_owner r.target_role
    then deny "admin cannot remove an owner"
    else if is_owner r.target_role && is_last_owner r
    then deny "cannot remove the last owner; transfer ownership first"
    else allow

-- The switch at the end of Can.
unfoldable pub action_guard : Actor → Action → Resource → Decision
unfolding guard_change_role guard_remove_member
action_guard actor change_member_role r = guard_change_role actor r
action_guard actor remove_member r = guard_remove_member actor r
action_guard actor _ r = allow

-- Is the resource one of another organisation?
unfoldable pub crosses_org : Actor → Action → Resource → Bool
crosses_org actor action r =
    not (same_action action create_organization)
    && (not (r.resource_org == 0) && not (r.resource_org == actor.org_id))

unfoldable pub can : Actor → Action → Resource → Decision
unfolding crosses_org owner_only role_permits action_guard
can actor action r =
    if crosses_org actor action r
    then deny "resource belongs to another org"
    else if is_api_key actor.kind && owner_only action
    then deny "api keys cannot perform owner-only actions"
    else if role_permits actor.role action
    then action_guard actor action r
    else deny "role not permitted"

unfoldable pub ensure_not_last_owner : Role → ℕ → Decision
ensure_not_last_owner target_role owner_count =
    if is_owner target_role && leb owner_count 1
    then deny "cannot remove the last owner; transfer ownership or delete the org"
    else allow
