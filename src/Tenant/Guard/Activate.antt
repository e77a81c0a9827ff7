-- ===== src/Tenant/Guard/Activate.antt =====
-- CoreTenantGuard.canActivate and resolveTenantContext, with the private methods that they call.
-- A header value that is empty after trimming is falsy in every test of the code and counts as
-- absent; debug output is not modelled.

pub mod Keeps
pub mod Sound
pub mod Denial
pub mod Platform
use nest_server.Prelude.{
  ℕ, Bool, true, false, not, ◌&&◌, ◌||◌, Option, none, some, List, [], ◌∷◌, Text, text_eq, eqb, leb,
  if◌then◌else◌, filter, any, includes, is_empty, is_some, trim, length, or_else,
}
use nest_server.Role.{admin, s_no_one, s_everyone, s_user, s_verified, is_system_role}
use nest_server.Tenant.Config.{MultiTenancy, Number}
use nest_server.Tenant.Hierarchy.{merge_roles_metadata, get_min_required_level, check_role_access}
use nest_server.Tenant.Boundary.{resolve_global_and_tenant_roles, tenant_satisfiable_roles}
use nest_server.Tenant.Guard.State.{
  Membership, MemberModel, User, Request, Context, BetterAuthOption, absent, switch, options, Env,
  CoreTenantGuard, Reason, access_denied, verification_required, not_a_member,
  insufficient_tenant_role, insufficient_role, Outcome, ok, unauthorized, forbidden, World, Action,
  pure, continue, ◌>>=◌, ◌>>◌,
}
use nest_server.Tenant.Guard.Cache.{find_membership_cached, lookup_ids, clear_all}

-- A text that is absent or empty is falsy.
unfoldable pub non_empty : Text → Option Text
non_empty [] = none
non_empty (c ∷ s) = some (c ∷ s)

-- The tenant header: at most 128 code units, trimmed.
unfoldable pub parse_header : Option Text → Option Text
unfolding non_empty
parse_header none = none
parse_header (some raw) = if leb (length raw) 128 then non_empty (trim raw) else none

-- user.roles?.includes(role)
unfoldable pub user_has : User → Text → Bool
unfolding includes
user_has u role = includes (or_else u.roles []) role

-- adminBypass && user?.roles?.includes(ADMIN)
unfoldable pub is_admin : MultiTenancy → Option User → Bool
is_admin config none = false
is_admin config (some u) = config.admin_bypass && user_has u admin

unfoldable pub is_verified : User → Bool
is_verified u = u.verified || u.verified_at || u.email_verified

unfoldable pub should_skip_better_auth : BetterAuthOption → Bool
should_skip_better_auth absent = true
should_skip_better_auth (switch on) = on
should_skip_better_auth (options skip) = or_else skip true

-- Method-level roles come before the merged ones for the checks of system roles.
unfoldable pub system_check_roles : Context → List Text
unfolding merge_roles_metadata
system_check_roles context =
    let method_roles = or_else context.handler_roles [] in
    if is_empty method_roles
    then merge_roles_metadata context.handler_roles context.class_roles
    else method_roles

unfoldable pub raise_forbidden : {A : Type 0} → Reason → Action A
raise_forbidden r w = (forbidden r, w)

unfoldable pub raise_unauthorized : {A : Type 0} → Action A
raise_unauthorized w = (unauthorized, w)

unfoldable pub modify : (Request → Request) → Action (Unit {0})
modify f w = (ok tt, record w { request = f w.request })

unfoldable pub set_tenant : Text → Text → Action Bool
set_tenant tenant_id role w = (
  ok true,
  record w { request = record w.request { tenant_id = some tenant_id; tenant_role = some role } },
)

unfoldable pub set_bypass : Option Text → Action Bool
set_bypass none w = (ok true, record w { request = record w.request { is_admin_bypass = true } })
set_bypass (some tenant_id) w = (
  ok true,
  record w { request = record w.request { tenant_id = some tenant_id; is_admin_bypass = true } },
)

unfoldable pub is_seen : Option ℕ → ℕ → Bool
is_seen none current = false
is_seen (some seen) current = eqb seen current

module _ (members : MemberModel) (env : Env) where
  unfoldable pub find_membership : Text → Text → Action (Option Membership)
  find_membership user_id tenant_id w =
      let (found, g) = find_membership_cached members env user_id tenant_id w.guard in
      (ok found, record w { guard = g })

  -- resolveUserTenantIds
  unfoldable pub resolve_user_tenant_ids : Text → Option Number → Action Bool
  resolve_user_tenant_ids user_id min_level w =
      if is_some w.request.tenant_ids
      then (ok true, w)
      else let (ids, g) = lookup_ids members env user_id min_level w.guard in
        (ok true, record { guard = g; request = record w.request { tenant_ids = some ids } })

  unfoldable pub enter_as_member : Text → Option Membership → Action Bool
  unfolding set_tenant raise_forbidden
  enter_as_member tenant_id none = raise_forbidden not_a_member
  enter_as_member tenant_id (some m) = set_tenant tenant_id m.role

  -- handleSystemRoleWithTenantHeader
  unfoldable pub handle_system_role_with_tenant_header : User → Text → Bool → Action Bool
  handle_system_role_with_tenant_header user tenant_id bypass =
      if bypass
      then set_bypass (some tenant_id)
      else do membership ← find_membership user.id tenant_id; enter_as_member tenant_id membership

  -- skipWithUserRoleCheck
  unfoldable pub skip_with_user_role_check : List Text → Option User → Bool → Action Bool
  unfolding raise_forbidden raise_unauthorized
  skip_with_user_role_check checkable none bypass =
      if is_empty checkable then pure true else raise_unauthorized
  skip_with_user_role_check checkable (some user) bypass =
      if is_empty checkable
        || bypass
        || check_role_access env.multi_tenancy checkable user.roles none
      then pure true
      else raise_forbidden insufficient_role

  -- The first lines of canActivate: options that are another object flush the caches.
  unfoldable pub observe_config : MultiTenancy → CoreTenantGuard → CoreTenantGuard
  observe_config config g =
      if is_seen g.last_seen_config env.config_ref
      then g
      else clear_all (record g {
        cache_ttl_ms = or_else config.cache_ttl_ms (if env.is_test_env then 0 else 30000);
        last_seen_config = some env.config_ref;
      })

  -- S_EVERYONE: a member's tenant is noted, and access is never refused.
  unfoldable pub note_membership : Text → Option Membership → Action Bool
  unfolding set_tenant
  note_membership tenant_id none = pure true
  note_membership tenant_id (some m) = set_tenant tenant_id m.role

  unfoldable pub everyone : Option Text → Option User → Action Bool
  everyone none user = pure true
  everyone (some tenant_id) none = pure true
  everyone (some tenant_id) (some user) =
      if is_empty user.id
      then pure true
      else do membership ← find_membership user.id tenant_id; note_membership tenant_id membership

  -- What S_USER and S_VERIFIED do with the tenant header.
  unfoldable pub with_header : Option Text → User → Bool → Bool → Action Bool
  with_header none user skip bypass = pure true
  with_header (some tenant_id) user skip bypass =
      if skip then pure true else handle_system_role_with_tenant_header user tenant_id bypass

  unfoldable pub user_role : Option Text → Option User → Bool → Bool → Action Bool
  unfolding raise_unauthorized
  user_role header none skip bypass = raise_unauthorized
  user_role header (some user) skip bypass = with_header header user skip bypass

  unfoldable pub verified_role : Option Text → Option User → Bool → Bool → Action Bool
  unfolding raise_unauthorized raise_forbidden
  verified_role header none skip bypass = raise_unauthorized
  verified_role header (some user) skip bypass =
      if is_verified user
      then with_header header user skip bypass
      else raise_forbidden verification_required

  -- The role check of a member: global roles by the user's roles, the others by the membership.
  unfoldable pub member_satisfies : List Text → User → Membership → Bool
  unfolding any
  member_satisfies checkable user m =
      let global_roles =
        (resolve_global_and_tenant_roles env.multi_tenancy env.sources checkable).global in
      let tenant_roles = tenant_satisfiable_roles env.multi_tenancy env.sources checkable in
      any (λ r. user_has user r) global_roles
      || (not (is_empty tenant_roles)
          && check_role_access env.multi_tenancy tenant_roles none (some m.role))

  unfoldable pub enter_with_roles : List Text → User → Text → Option Membership → Action Bool
  unfolding raise_forbidden set_tenant
  enter_with_roles checkable user tenant_id none = raise_forbidden not_a_member
  enter_with_roles checkable user tenant_id (some m) =
      if is_empty checkable || member_satisfies checkable user m
      then set_tenant tenant_id m.role
      else raise_forbidden insufficient_tenant_role

  -- The branch with a tenant header.
  unfoldable pub header_present : List Text → Text → Option User → Bool → Action Bool
  unfolding raise_unauthorized
  header_present checkable tenant_id none bypass = raise_unauthorized
  header_present checkable tenant_id (some user) bypass =
      if bypass then set_bypass (some tenant_id) else do
        membership ← find_membership user.id tenant_id
        enter_with_roles checkable user tenant_id membership

  -- The branch without a tenant header.
  unfoldable pub no_header : List Text → Option User → Bool → Action Bool
  unfolding raise_unauthorized raise_forbidden
  no_header checkable none bypass = if is_empty checkable then pure true else raise_unauthorized
  no_header checkable (some user) bypass =
      if bypass
      then set_bypass none
      else if is_empty checkable
      then resolve_user_tenant_ids user.id none
      else if check_role_access env.multi_tenancy checkable user.roles none
      then resolve_user_tenant_ids user.id (get_min_required_level env.multi_tenancy checkable)
      else raise_forbidden insufficient_role

  unfoldable pub by_header : List Text → Option Text → Option User → Bool → Action Bool
  by_header checkable none user bypass = no_header checkable user bypass
  by_header checkable (some tenant_id) user bypass = header_present checkable tenant_id user bypass

  -- The rest of canActivate, for the merged roles and those that system roles are looked up in.
  unfoldable pub decide :
      Context → List Text → List Text → Option Text → Option User → Bool → Action Bool
  unfolding raise_forbidden
  decide context roles system_roles header user bypass =
      let checkable = filter (λ r. not (is_system_role r)) roles in
      if includes roles s_no_one
      then raise_forbidden access_denied
      else if includes system_roles s_everyone
      then everyone header user
      else if includes system_roles s_user
      then user_role header user context.skip_tenant_check bypass
      else if includes system_roles s_verified
      then verified_role header user context.skip_tenant_check bypass
      else if context.skip_tenant_check
          || (not (is_some header)
              && context.is_better_auth
              && should_skip_better_auth env.better_auth)
      then skip_with_user_role_check checkable user bypass
      else by_header checkable header user bypass

  unfoldable pub activate : MultiTenancy → Context → Action Bool
  activate config context w =
      let w' : World = record w { guard = observe_config config w.guard } in
      if not context.has_request
      then (ok true, w')
      else decide context (merge_roles_metadata context.handler_roles context.class_roles)
          (system_check_roles context) (parse_header w.request.header) w.request.user
          (is_admin config w.request.user) w'

  -- canActivate
  unfoldable pub can_activate : Context → Action Bool
  can_activate context w = elim env.multi_tenancy [
    | none ↦ (ok true, w)
    | some config ↦ if config.enabled then activate config context w else (ok true, w)
  ]
