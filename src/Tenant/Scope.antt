-- ===== src/Tenant/Scope.antt =====
-- Whose authority a role name carries (src/core/modules/tenant/core-role-scope.registry.ts), and
-- the checks of core-tenant.helpers.ts that rest on it. The sources are those that were registered,
-- each as the roles that it declares; the source read from the options stands before them.
use nest_server.Prelude.{
  ℕ, Bool, true, false, not, ◌||◌, Option, none, some, List, [], ◌∷◌, ◌++◌, Text, text_eq,
  if◌then◌else◌, includes, is_empty,
}
use nest_server.Prelude.Dict.{Dict}
use nest_server.Role.{is_system_role, looks_like_system_role, global_only_roles}
use nest_server.Tenant.Config.{MultiTenancy, default_role_hierarchy, hierarchy_of}

pub data RoleScope : Type 0 where
  global system tenant unknown : RoleScope

pub record RoleScopeSource : Type 0 where
  pub global_roles : List Text
  pub tenant_roles : List Text

-- Object.keys
unfoldable pub keys : Dict Text ℕ → List Text
keys [] = []
keys ((k, v) ∷ m) = k ∷ keys m

-- configSource
unfoldable pub config_source : Option MultiTenancy → RoleScopeSource
config_source none = record { global_roles = []; tenant_roles = keys default_role_hierarchy }
config_source (some config) = record {
  global_roles = config.global_only_roles;
  tenant_roles = keys (hierarchy_of config) ++ config.additional_membership_roles;
}

-- The loop over one source's roles; a set keeps each role once, and the empty text is no role.
unfoldable pub collect_roles : List Text → List Text → List Text
unfolding includes
collect_roles collected [] = collected
collect_roles collected (role ∷ roles) =
    collect_roles
      (if is_empty role || includes collected role then collected else collected ++ role ∷ []) roles

unfoldable pub collect_from :
    (RoleScopeSource → List Text) → List Text → List RoleScopeSource → List Text
collect_from pick collected [] = collected
collect_from pick collected (source ∷ sources) =
    collect_from pick (collect_roles collected (pick source)) sources

unfoldable pub is_tenant_scope : RoleScope → Bool
is_tenant_scope tenant = true
is_tenant_scope _ = false

unfoldable pub is_global_scope : RoleScope → Bool
is_global_scope global = true
is_global_scope _ = false

module _ (config : Option MultiTenancy) (sources : List RoleScopeSource) where
  unfoldable pub collect : (RoleScopeSource → List Text) → List Text
  collect pick = collect_from pick [] (config_source config ∷ sources)

  unfoldable pub scope_of : Text → RoleScope
  scope_of role =
      if is_system_role role || looks_like_system_role role
      then system
      else if includes global_only_roles role || includes (collect (λ s. s.global_roles)) role
      then global
      else if includes (collect (λ s. s.tenant_roles)) role
      then tenant
      else unknown

  unfoldable pub is_tenant_role : Text → Bool
  is_tenant_role role = is_tenant_scope (scope_of role)

  unfoldable pub has_tenant_knowledge : Bool
  has_tenant_knowledge = not (is_empty (collect (λ s. s.tenant_roles)))
