-- ===== src/Tenant/Membership/Assignable.antt =====
-- Roles that may be assigned to memberships, against the scopes that the guard asks for.
use nest_server.Prelude.{
  ◌≡◌, ◌≢◌, true, false, none, some, List, [], ◌++◌, arith, Text, text_eq, includes, any,
}
use nest_server.Tenant.Config.{MultiTenancy, hierarchy_of}
use nest_server.Tenant.Scope.{RoleScopeSource, keys, scope_of, tenant}
use nest_server.Tenant.Boundary.{assert_role_vocabulary_is_coherent}
use nest_server.Tenant.Boundary.Coherence.{coherent-tenant_scope}
use nest_server.Tenant.Membership.{assert_assignable_membership_role, is_undeclared}

-- With multi-tenancy enabled, strict membership roles and a vocabulary that passes the boot check,
-- a role that is not empty and that may be assigned to a membership has tenant scope, unless a
-- further source declares it global.
pub assignable-tenant_scope :
    (c : MultiTenancy) (sources : List RoleScopeSource) (r : Text)
    → c.enabled ≡ true
    → c.strict_membership_roles ≡ true
    → assert_role_vocabulary_is_coherent (some c) ≡ none
    → assert_assignable_membership_role (some c) r ≡ none
    → r ≢ []
    → any (λ s. includes s.global_roles r) sources ≡ false
    → scope_of (some c) sources r ≡ tenant
unfolding assert_assignable_membership_role is_undeclared
assignable-tenant_scope c sources r enabled strict coherent assignable some_text no_source =
    coherent-tenant_scope c sources r enabled coherent some_text declared no_source
  where
    declared : includes (keys (hierarchy_of c) ++ c.additional_membership_roles) r ≡ true
    declared = ground (arith, strict, assignable)
