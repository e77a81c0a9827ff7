-- ===== src/Tenant/Tests/Access.antt =====
-- The theorems on roles, on the vocabulary and on who passes the guard, at concrete inputs.
use nest_server.Tenant.Membership.{is_undeclared, assert_assignable_membership_role}
use nest_server.Tenant.Membership.Assignable.{assignable-tenant_scope}
use nest_server.Tenant.Boundary.{
  resolve_from, resolve_global_and_tenant_roles, tenant_satisfiable_roles, is_global,
  assert_role_vocabulary_is_coherent,
}
use nest_server.Tenant.Guard.Activate.{
  member_satisfies, set_tenant, enter_with_roles, find_membership, header_present, is_seen,
  observe_config, non_empty, is_admin, activate, by_header, decide, no_header, parse_header,
  system_check_roles, can_activate, user_has,
}
use nest_server.Prelude.Dict.{get, set}
use nest_server.Tenant.Guard.Cache.{
  evict_if_over_capacity, membership_key, fresh_membership, remember_membership, answer_membership,
  find_membership_cached,
}
use nest_server.Tenant.Scope.{
  config_source, collect_roles, collect_from, collect, is_global_scope, keys, scope_of, tenant,
}
use nest_server.Role.{
  is_global_only_role, looks_like_system_role, is_system_role, is_forbidden_membership_role,
  s_everyone,
}
use nest_server.Prelude.{
  trim_start, trim_end, starts_with, lower_unit, all, is_space, to_lower_case, trim, filter, ◌≡◌,
  refl, true, false, none, some, [], ◌∷◌, Text, text_eq, ◌⊎◌, any, is_empty, includes, text,
  text_beq,
}
use nest_server.Tenant.Config.{get_role_hierarchy, is_multi_tenancy_active, level, MultiTenancy}
use nest_server.Tenant.Hierarchy.{merge_roles_metadata, check_role_access, available_roles}
use nest_server.Tenant.Guard.Activate.Platform.{
  checkable_roles, can_activate-platform, can_activate-anonymous,
}
use nest_server.Tenant.Hierarchy.Access.{check_role_access-eq-any, covers, used_hierarchy}
use nest_server.Tenant.Guard.State.{Context, World}
use nest_server.Tenant.Tests.{acme, editor, members, config, env, user, request, world, requiring}

abbrev manager : Text
manager = text "manager"

abbrev owner : Text
owner = text "owner"

check_role_access-eq-any_example :
    check_role_access (some config) (manager ∷ []) none (some owner)
    ≡ any
        (λ r. any (covers (used_hierarchy (some config)) r) (available_roles none (some owner)))
        (manager ∷ [])
unfolding text all level is_multi_tenancy_active get_role_hierarchy text_beq
check_role_access-eq-any_example =
    check_role_access-eq-any (some config) (manager ∷ []) none (some owner) (λ e. cc) refl

-- The same options with `auditor` as a role that only the platform grants.
abbrev auditor : Text
auditor = b'p' ∷ []

abbrev platform : MultiTenancy
platform = record config { global_only_roles = auditor ∷ [] }

abbrev auditing : World
auditing = record world {
  request = record request { user = some (record user { roles = some (auditor ∷ []) }) };
}

can_activate-platform_example :
    any
      (λ r. user_has (record user { roles = some (auditor ∷ []) }) r)
      (checkable_roles (requiring auditor))
    ≡ true
unfolding includes text system_check_roles text_beq parse_header trim is_space is_admin user_has
    filter is_system_role all is_global is_global_scope scope_of looks_like_system_role
    to_lower_case collect lower_unit starts_with trim_end trim_start is_global_only_role non_empty
    merge_roles_metadata collect_from collect_roles config_source keys can_activate activate decide
    observe_config is_seen by_header header_present find_membership find_membership_cached
    answer_membership remember_membership fresh_membership membership_key evict_if_over_capacity
    enter_with_roles get set set_tenant member_satisfies resolve_global_and_tenant_roles
    resolve_from tenant_satisfiable_roles any
can_activate-platform_example =
    can_activate-platform members (record env { multi_tenancy = some platform }) platform
      (requiring auditor) auditing (record user { roles = some (auditor ∷ []) }) acme refl refl refl
      (refl, refl, refl) refl refl refl refl refl refl refl

abbrev nobody : World
nobody = record world { request = record request { user = none; header = none } }

abbrev open_to_all : Context
open_to_all = record (requiring editor) { handler_roles = none }

can_activate-anonymous_example :
    (includes (system_check_roles open_to_all) s_everyone ≡ true)
    ⊎ ((is_empty (checkable_roles open_to_all) ≡ true)
        × ((parse_header none ≡ none) ⊎ (false ≡ true)))
unfolding text can_activate activate decide includes merge_roles_metadata system_check_roles
    parse_header by_header no_header filter
can_activate-anonymous_example =
    can_activate-anonymous members env config open_to_all nobody refl refl refl refl refl

abbrev strict : MultiTenancy
strict = record config { strict_membership_roles = true }

assignable-tenant_scope_example : scope_of (some strict) [] editor ≡ tenant
unfolding assert_role_vocabulary_is_coherent filter keys is_forbidden_membership_role to_lower_case
    trim is_space text_beq assert_assignable_membership_role is_undeclared
assignable-tenant_scope_example =
    assignable-tenant_scope strict [] editor refl refl refl refl (λ e. cc) refl
