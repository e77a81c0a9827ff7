-- ===== src/Tenant/Guard/Resolve.antt =====
-- resolveTenantContext, the guard's answer for requests that it does not see itself.
pub mod Sound
use nest_server.Prelude.{
  ℕ, Bool, true, false, not, ◌&&◌, ◌||◌, Option, none, some, List, [], ◌∷◌, Text, text_eq, eqb, leb,
  if◌then◌else◌, filter, any, includes, is_empty, is_some, trim, length, or_else,
}
use nest_server.Role.{admin, s_no_one, s_everyone, s_user, s_verified, is_system_role}
use nest_server.Tenant.Config.{MultiTenancy, Number}
use nest_server.Tenant.Hierarchy.{merge_roles_metadata, get_min_required_level, check_role_access}
use nest_server.Tenant.Boundary.{resolve_global_and_tenant_roles, tenant_satisfiable_roles}
use nest_server.Tenant.Guard.State.{
  Membership, MemberModel, User, Request, Context, BetterAuthOption, absent, switch, options, Env,
  CoreTenantGuard, Reason, access_denied, verification_required, not_a_member,
  insufficient_tenant_role, insufficient_role, Outcome, ok, unauthorized, forbidden, World, Action,
  pure, continue, ◌>>=◌, ◌>>◌,
}
use nest_server.Tenant.Guard.Cache.{find_membership_cached, lookup_ids, clear_all}
use nest_server.Tenant.Guard.Activate.{is_admin, parse_header}

-- ResolvedTenantContext
pub record TenantContext : Type 0 where
  pub tenant_id : Option Text
  pub tenant_role : Option Text
  pub tenant_ids : Option (List Text)
  pub is_admin_bypass : Bool

abbrev pub no_context : TenantContext
no_context = record {
  tenant_id = none;
  tenant_role = none;
  tenant_ids = none;
  is_admin_bypass = false;
}

abbrev member_context : Text → Option Membership → TenantContext
member_context tenant_id none = no_context
member_context tenant_id (some m) = record no_context {
  tenant_id = some tenant_id;
  tenant_role = some m.role;
}

module _ (members : MemberModel) (env : Env) where
  -- The part of resolveTenantContext for a user with an id who has no bypass.
  unfoldable pub user_context :
      Text → Option Text → CoreTenantGuard → TenantContext × CoreTenantGuard
  user_context user_id (some tenant_id) g =
      let (found, g') = find_membership_cached members env user_id tenant_id g in
      (member_context tenant_id found, g')
  user_context user_id none g =
      let (ids, g') = lookup_ids members env user_id none g in
      (record no_context { tenant_ids = some ids }, g')

  unfoldable pub resolve_for :
      MultiTenancy → Option User → Option Text → CoreTenantGuard → TenantContext × CoreTenantGuard
  resolve_for config none header g = (no_context, g)
  resolve_for config (some user) header g =
      if is_admin config (some user)
      then (record no_context { is_admin_bypass = true; tenant_id = header }, g)
      else if is_empty user.id
      then (no_context, g)
      else user_context user.id header g

  -- resolveTenantContext
  unfoldable pub resolve_tenant_context :
      Option User → Option Text → CoreTenantGuard → TenantContext × CoreTenantGuard
  resolve_tenant_context user header g = elim env.multi_tenancy [
    | none ↦ (no_context, g)
    | some config ↦
        if config.enabled then resolve_for config user (parse_header header) g else (no_context, g)
  ]
