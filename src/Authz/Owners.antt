-- ===== src/Authz/Owners.antt =====
-- internal/authz/authz.go, the owner guards: an organisation never loses its last owner. Its
-- memberships are the list of their roles, and the handler reads the target's role and the number
-- of owners in the transaction of the change.
use pulse_pager.Prelude.{
  ℕ, ◌≤◌, ◌≡◌, List, ◌∷◌, ◌++◌, arith, count_where, count_where-append, inl, inr, ◌⊎◌,
}
use pulse_pager.Authz.{
  Role, Action, Actor, Resource, Decision, is_owner, can, ensure_not_last_owner,
}
use pulse_pager.Authz.Roles.{can-allow_iff}

abbrev pub owners : List Role → ℕ
owners members = count_where is_owner members

-- A change of role that is allowed leaves the organisation with an owner, whoever makes it, if it
-- had one and the count was of its owners.
pub can-change_keeps_owner :
    (actor : Actor) (r : Resource) (before after : List Role)
    → r.owner_count ≡ owners (before ++ r.target_role ∷ after)
    → 1 ≤ owners (before ++ r.target_role ∷ after)
    → can actor Action.change_member_role r ≡ Decision.allow
    → 1 ≤ owners (before ++ r.new_role ∷ after)
unfolding count_where
can-change_keeps_owner actor r before after counted some_owner allowed = ground (
  arith,
  (can-allow_iff actor Action.change_member_role r).0 allowed,
  count_where-append is_owner before (r.target_role ∷ after),
  count_where-append is_owner before (r.new_role ∷ after),
)

-- A removal of a member that is allowed, or a leave that ensure_not_last_owner allows, leaves the
-- organisation with an owner, if it had one and the count was of its owners.
pub can-remove_keeps_owner :
    (actor : Actor) (r : Resource) (before after : List Role)
    → r.owner_count ≡ owners (before ++ r.target_role ∷ after)
    → 1 ≤ owners (before ++ r.target_role ∷ after)
    → (can actor Action.remove_member r ≡ Decision.allow)
      ⊎ (ensure_not_last_owner r.target_role r.owner_count ≡ Decision.allow)
    → 1 ≤ owners (before ++ after)
unfolding count_where ensure_not_last_owner
can-remove_keeps_owner actor r before after counted some_owner (inl allowed) = ground (
  arith,
  (can-allow_iff actor Action.remove_member r).0 allowed,
  count_where-append is_owner before (r.target_role ∷ after),
  count_where-append is_owner before after,
)
can-remove_keeps_owner actor r before after counted some_owner (inr allowed) = ground (
  arith,
  count_where-append is_owner before (r.target_role ∷ after),
  count_where-append is_owner before after,
)
