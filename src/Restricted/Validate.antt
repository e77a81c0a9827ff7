-- ===== src/Restricted/Validate.antt =====
-- validateRestricted and checkFieldRoleAccess. The check of the marker in validateRestricted is left out:
-- an object that carries it is returned before.
use nest_server.Prelude.{
  Bool, true, false, not, ◌&&◌, ◌||◌, Option, none, some, List, [], ◌∷◌, ◌++◌, Text, text, text_eq,
  if◌then◌else◌, includes, is_empty, any, filter, is_some,
}
use nest_server.Role.{is_system_role, s_everyone, s_no_one, s_user, s_self, s_creator, s_verified}
use nest_server.Tenant.Config.{MultiTenancy}
use nest_server.Tenant.Scope.{RoleScopeSource}
use nest_server.Tenant.Hierarchy.{check_role_access}
use nest_server.Tenant.Boundary.{resolve_global_and_tenant_roles}
use nest_server.Auth.User.{User, user_has_role}
use nest_server.Restricted.Data.{
  Value, object, array, Values, no_value, value, find_field, string_id, id_of_user, equal_ids,
  ProcessType, input, output, Restriction, role, role_list, entry, Config,
}

-- Who asks, and what the roles mean.
pub record Requester : Type 0 where
  pub user : Option User
  pub tenant_role : Option Text
  pub multi_tenancy : Option MultiTenancy
  pub sources : List RoleScopeSource

-- user?.id
abbrev pub has_id : Option User → Bool
has_id none = false
has_id (some user) = not (is_empty user.id)

unfoldable pub roles_of_user : Option User → Option (List Text)
roles_of_user none = none
roles_of_user (some user) = user.roles

unfoldable pub holds_role : Option (List Text) → Text → Bool
unfolding includes
holds_role none r = false
holds_role (some roles) r = includes roles r

unfoldable pub check_field_role_access : Requester → List Text → Bool
unfolding is_system_role filter any resolve_global_and_tenant_roles check_role_access roles_of_user
    holds_role
check_field_role_access requester roles =
    let split =
      resolve_global_and_tenant_roles requester.multi_tenancy requester.sources
        (filter (λ r. not (is_system_role r)) roles) in
    any (holds_role (roles_of_user requester.user)) split.global
    || not (is_empty split.tenant)
      && check_role_access requester.multi_tenancy split.tenant (roles_of_user requester.user)
          requester.tenant_role

-- `config.processType && item.processType ? config.processType === item.processType : true`
unfoldable pub is_for : Option ProcessType → Option ProcessType → Bool
is_for none other = true
is_for (some process) none = true
is_for (some input) (some input) = true
is_for (some input) (some output) = false
is_for (some output) (some input) = false
is_for (some output) (some output) = true

unfoldable pub roles_in : Option ProcessType → Restriction → List Text
unfolding is_for
roles_in process (role r) = r ∷ []
roles_in process (role_list roles) = roles
roles_in process (entry roles process_type member_of) =
    if is_for process process_type then roles else []

unfoldable pub restricted_roles : Option ProcessType → List Restriction → List Text
unfolding roles_in
restricted_roles process [] = []
restricted_roles process (r ∷ restricted) =
    roles_in process r ++ restricted_roles process restricted

unfoldable pub group_of : Option ProcessType → Restriction → List (List Text)
unfolding is_for
group_of process (role r) = []
group_of process (role_list roles) = []
group_of process (entry roles process_type member_of) =
    if not (is_empty member_of) && is_for process process_type then member_of ∷ [] else []

unfoldable pub restricted_groups : Option ProcessType → List Restriction → List (List Text)
unfolding group_of
restricted_groups process [] = []
restricted_groups process (r ∷ restricted) =
    group_of process r ++ restricted_groups process restricted

-- `'createdBy' in owner`, and its value
unfoldable pub created_by : Option Value → Option Value
unfolding find_field
created_by none = none
created_by (some (object class marked fields)) = find_field (text "createdBy") fields
created_by (some other) = none

abbrev pub id_of : Option Value → Option Text
id_of none = none
id_of (some v) = string_id v

unfoldable pub is_creator : Config → Option Value → Option User → Bool
unfolding created_by equal_ids string_id id_of_user
is_creator config owner user = elim (created_by owner) [
  | some creator ↦ equal_ids (string_id creator) (id_of_user user)
  | none ↦ config.allow_creator_of_parent && is_some owner && config.is_creator_of_parent
]

unfoldable pub is_verified : Option User → Bool
is_verified none = false
is_verified (some user) = user.verified || user.verified_at || user.email_verified

unfoldable pub has_role_of : Option User → List Text → Bool
unfolding user_has_role
has_role_of none roles = false
has_role_of (some user) roles = user_has_role user roles

-- The condition on the roles.
unfoldable pub roles_allow : Config → Requester → Option Value → List Text → Bool
unfolding includes is_creator is_verified equal_ids string_id id_of_user check_field_role_access
    has_role_of
roles_allow config requester owner roles =
    includes roles s_everyone
    || has_role_of requester.user roles
    || has_id requester.user && includes roles s_user
    || includes roles s_self && equal_ids (id_of owner) (id_of_user requester.user)
    || includes roles s_creator && is_creator config owner requester.user
    || includes roles s_verified && is_verified requester.user
    || has_id requester.user && check_field_role_access requester roles

-- The user among the members that a property of the object names, a single one or an array.
unfoldable pub in_values : Option Text → Values → Bool
unfolding string_id equal_ids
in_values user no_value = false
in_values user (value v values) = equal_ids (string_id v) user || in_values user values

unfoldable pub in_members : Option Text → Option Value → Bool
unfolding in_values string_id equal_ids
in_members user none = false
in_members user (some (array values)) = in_values user values
in_members user (some other) = equal_ids (string_id other) user

unfoldable pub property_of : Option Value → Text → Option Value
unfolding find_field
property_of (some (object class marked fields)) property = find_field property fields
property_of other property = none

unfoldable pub groups_allow : Config → Option User → List (List Text) → Bool
unfolding any in_members property_of id_of_user
groups_allow config user groups =
    any (λ group. any (λ p. in_members (id_of_user user) (property_of config.db_object p)) group)
      groups

unfoldable pub owner_of : Config → Value → Option Value
owner_of config current = elim config.process_type [
  | none ↦ some current
  | some input ↦ config.db_object
  | some output ↦ some current
]

unfoldable pub validate_restricted : Config → Requester → Value → List Restriction → Bool
unfolding restricted_roles restricted_groups roles_allow groups_allow owner_of includes
validate_restricted config requester current restricted =
    let roles = restricted_roles config.process_type restricted in
    let groups = restricted_groups config.process_type restricted in
    if includes roles s_no_one
    then false
    else not (is_empty roles) && roles_allow config requester (owner_of config current) roles
      || groups_allow config requester.user groups
      || is_empty roles && is_empty groups
