-- ===== src/Tenant/Membership.antt =====
-- The roles that a membership may have, and the roles at the ends of the hierarchy
-- (src/core/modules/tenant/core-tenant.service.ts).
pub mod Assignable
pub mod Members
use nest_server.Prelude.{
  ℕ, Bool, true, false, not, ◌&&◌, Option, none, some, List, [], ◌∷◌, ◌++◌, Text, text, text_eq,
  leb, if◌then◌else◌, includes,
}
use nest_server.Prelude.Dict.{Dict}
use nest_server.Role.{looks_like_system_role, looks_like_global_only_role}
use nest_server.Tenant.Config.{MultiTenancy, get_role_hierarchy, hierarchy_of}
use nest_server.Tenant.Scope.{keys}

pub data Refused : Type 0 where
  system_role global_role undeclared_role : Refused

-- entries.reduce((a, b) => (pick ? a : b)), from the entry that is kept so far
unfoldable pub reduce : (ℕ → ℕ → Bool) → Text × ℕ → Dict Text ℕ → Text
reduce keeps kept [] = kept.0
reduce keeps kept (entry ∷ entries) =
    reduce keeps (if keeps kept.1 entry.1 then kept else entry) entries

unfoldable pub reduce_or : Text → (ℕ → ℕ → Bool) → Dict Text ℕ → Text
unfolding reduce
reduce_or empty keeps [] = empty
reduce_or empty keeps (entry ∷ entries) = reduce keeps entry entries

unfoldable pub get_default_role : Option MultiTenancy → Text
get_default_role config = reduce_or (text "member") (λ a b. leb a b) (get_role_hierarchy config)

unfoldable pub get_highest_role : Option MultiTenancy → Text
get_highest_role config = reduce_or (text "owner") (λ a b. leb b a) (get_role_hierarchy config)

-- `declared.has(role)`, where the options ask for declared roles
unfoldable pub is_undeclared : Option MultiTenancy → Text → Bool
unfolding keys includes
is_undeclared none role = false
is_undeclared (some config) role =
    config.strict_membership_roles
    && not (includes (keys (hierarchy_of config) ++ config.additional_membership_roles) role)

-- The refusal of a role, if there is one.
unfoldable pub assert_assignable_membership_role : Option MultiTenancy → Text → Option Refused
assert_assignable_membership_role config role =
    if looks_like_system_role role
    then some system_role
    else if looks_like_global_only_role role
    then some global_role
    else if is_undeclared config role
    then some undeclared_role
    else none
