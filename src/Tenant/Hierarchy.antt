-- ===== src/Tenant/Hierarchy.antt =====
-- Role checks by level and by name (src/core/modules/tenant/core-tenant.helpers.ts).
pub mod Access
use nest_server.Prelude.{
  ℕ, Bool, true, false, not, ◌&&◌, ◌||◌, Option, none, some, List, [], ◌∷◌, ◌++◌, map, Text,
  text_eq, leb, if◌then◌else◌, or_else, filter, any, includes, is_empty,
}
use Prim.Native.Nat.{min}
use nest_server.Prelude.Dict.{Dict}
use nest_server.Tenant.Config.{
  MultiTenancy, Number, in_hierarchy, level, is_multi_tenancy_active, get_role_hierarchy,
}

-- mergeRolesMetadata: the roles of the handler and those of its class
unfoldable pub merge_roles_metadata : Option (List Text) → Option (List Text) → List Text
merge_roles_metadata none none = []
merge_roles_metadata none (some class_roles) = class_roles
merge_roles_metadata (some handler_roles) none = handler_roles
merge_roles_metadata (some handler_roles) (some class_roles) = handler_roles ++ class_roles

-- isHierarchyRole
unfoldable pub is_hierarchy_role : Option MultiTenancy → Text → Bool
unfolding is_multi_tenancy_active get_role_hierarchy in_hierarchy
is_hierarchy_role config role =
    if is_multi_tenancy_active config then in_hierarchy (get_role_hierarchy config) role else false

-- Math.min of two numbers: NaN if one of them is
unfoldable pub min_number : Number → Number → Number
min_number none n = none
min_number (some a) none = none
min_number (some a) (some b) = some (min a b)

-- Math.min(n, ...ns)
unfoldable pub min_of : Number → List Number → Number
unfolding min_number
min_of n [] = n
min_of n (m ∷ ns) = min_number n (min_of m ns)

-- a >= b, which NaN never is
unfoldable pub at_least : Number → Number → Bool
at_least none n = false
at_least (some a) none = false
at_least (some a) (some b) = leb b a

-- The least level of some roles, `none` for no roles.
unfoldable pub min_level : Dict Text ℕ → List Text → Option Number
unfolding min_of level
min_level hierarchy [] = none
min_level hierarchy (role ∷ roles) =
    some (min_of (level hierarchy role) (map (level hierarchy) roles))

-- getMinRequiredLevel
unfoldable pub get_min_required_level : Option MultiTenancy → List Text → Option Number
unfolding get_role_hierarchy filter in_hierarchy min_level
get_min_required_level config roles =
    let hierarchy = get_role_hierarchy config in
    min_level hierarchy (filter (in_hierarchy hierarchy) roles)

-- The tenant role stands for all roles of the user, where it is given and not empty.
unfoldable pub available_roles : Option (List Text) → Option Text → List Text
available_roles user_roles none = or_else user_roles []
available_roles user_roles (some []) = or_else user_roles []
available_roles user_roles (some (c ∷ role)) = (c ∷ role) ∷ []

-- Some available role is in the hierarchy, at the least required level or above.
unfoldable pub level_match : Dict Text ℕ → Option Number → List Text → Bool
unfolding any in_hierarchy at_least level
level_match hierarchy none available = false
level_match hierarchy (some min_required) available =
    any (λ r. in_hierarchy hierarchy r && at_least (level hierarchy r) min_required) available

-- checkRoleAccess
unfoldable pub check_role_access :
    Option MultiTenancy → List Text → Option (List Text) → Option Text → Bool
unfolding available_roles is_multi_tenancy_active get_role_hierarchy filter in_hierarchy min_level
    level_match any includes
check_role_access config required user_roles tenant_role =
    let available = available_roles user_roles tenant_role in
    let hierarchy = if is_multi_tenancy_active config then get_role_hierarchy config else [] in
    let hierarchy_required = filter (in_hierarchy hierarchy) required in
    let non_hierarchy_required = filter (λ r. not (in_hierarchy hierarchy r)) required in
    if is_empty available
    then false
    else if is_empty hierarchy_required && is_empty non_hierarchy_required
    then true
    else level_match hierarchy (min_level hierarchy hierarchy_required) available
      || any (includes available) non_hierarchy_required
