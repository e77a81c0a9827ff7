-- ===== src/Tenant/Boundary.antt =====
-- The tenant boundary: which required roles a membership may satisfy, and the check of the role
-- vocabulary at boot (src/core/modules/tenant/core-tenant.helpers.ts).
pub mod Laws
pub mod Coherence
use nest_server.Prelude.{
  Bool, true, false, not, ◌&&◌, ◌||◌, Option, none, some, List, [], ◌∷◌, ◌++◌, Text, text_eq,
  if◌then◌else◌, filter, includes, is_empty,
}
use nest_server.Role.{is_global_only_role, is_forbidden_membership_role, looks_like_system_role}
use nest_server.Tenant.Config.{MultiTenancy, hierarchy_of}
use nest_server.Tenant.Scope.{RoleScopeSource, scope_of, is_global_scope, is_tenant_role, keys}

pub record GlobalAndTenant : Type 0 where
  pub global : List Text
  pub tenant : List Text

-- Why the vocabulary of roles was refused, with the offending roles.
pub data Incoherent : Type 0 where
  reserved both system_globals : List Text → Incoherent

-- config?.multiTenancy?.strictMembershipRoles
abbrev pub is_strict : Option MultiTenancy → Bool
is_strict none = false
is_strict (some c) = c.strict_membership_roles

module _ (config : Option MultiTenancy) (sources : List RoleScopeSource) where
  unfoldable pub is_global : Text → Bool
  is_global role = is_global_scope (scope_of config sources role) || is_global_only_role role

  -- the loop of resolveGlobalAndTenantRoles
  unfoldable pub resolve_from : GlobalAndTenant → List Text → GlobalAndTenant
  resolve_from found [] = found
  resolve_from found (role ∷ roles) =
      resolve_from
        (if is_global role
          then record found { global = found.global ++ role ∷ [] }
          else record found { tenant = found.tenant ++ role ∷ [] })
        roles

  unfoldable pub resolve_global_and_tenant_roles : List Text → GlobalAndTenant
  resolve_global_and_tenant_roles required =
      resolve_from (record { global = []; tenant = [] }) required

  unfoldable pub tenant_satisfiable_roles : List Text → List Text
  tenant_satisfiable_roles required =
      let candidates = (resolve_global_and_tenant_roles required).tenant in
      if is_strict config then filter (is_tenant_role config sources) candidates else candidates

-- assertRoleVocabularyIsCoherent: `none` where it returns, the error where it throws
unfoldable pub assert_role_vocabulary_is_coherent : Option MultiTenancy → Option Incoherent
assert_role_vocabulary_is_coherent none = none
assert_role_vocabulary_is_coherent (some config) =
    let hierarchy = keys (hierarchy_of config) in
    let additional = config.additional_membership_roles in
    let declared_global = config.global_only_roles in
    let found_reserved = filter is_forbidden_membership_role (hierarchy ++ additional) in
    let found_both =
      filter (λ role. includes hierarchy role || includes additional role) declared_global in
    let found_system = filter looks_like_system_role declared_global in
    if not config.enabled
    then none
    else if not (is_empty found_reserved)
    then some (reserved found_reserved)
    else if not (is_empty found_both)
    then some (both found_both)
    else if not (is_empty found_system)
    then some (system_globals found_system)
    else none
