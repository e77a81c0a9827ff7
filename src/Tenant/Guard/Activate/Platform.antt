-- ===== src/Tenant/Guard/Activate/Platform.antt =====
-- Platform roles, and requests without a user.
use nest_server.Prelude.{
  ◌≡◌, ◌∙◌, true, false, not, Option, none, some, List, arith, filter, any, all, Text, text_eq, ◌⊎◌,
  is_empty, includes, filter_of_all, filter-not_of_all,
}
use nest_server.Role.{s_everyone, s_user, s_verified, is_system_role}
use nest_server.Tenant.Config.{MultiTenancy}
use nest_server.Tenant.Hierarchy.{merge_roles_metadata}
use nest_server.Tenant.Boundary.{is_global, tenant_satisfiable_roles}
use nest_server.Tenant.Boundary.Laws.{resolve_global_and_tenant_roles-filter}
use nest_server.Tenant.Guard.State.{Membership, MemberModel, User, Context, Env, World}
use nest_server.Tenant.Guard.Activate.{
  is_admin, find_membership, user_has, user_role, verified_role, enter_with_roles, header_present,
  by_header, decide, activate, can_activate, member_satisfies, system_check_roles, parse_header,
  observe_config, skip_with_user_role_check, no_header,
}
use nest_server.Tenant.Guard.Activate.Denial.{is_ok}

module _ (members : MemberModel) (env : Env) where
  -- With global roles only, a membership satisfies nothing.
  member_satisfies-global :
      (checkable : List Text) (u : User) (m : Membership)
      → all (is_global env.multi_tenancy env.sources) checkable ≡ true
      → member_satisfies members env checkable u m ≡ any (λ r. user_has u r) checkable
  unfolding member_satisfies tenant_satisfiable_roles filter
  member_satisfies-global checkable u m h =
      let (on_platform, in_tenant) =
        resolve_global_and_tenant_roles-filter env.multi_tenancy env.sources checkable in
      let platform = on_platform ∙ filter_of_all _ checkable h in
      let nothing = in_tenant ∙ filter-not_of_all _ checkable h in ground (arith, platform, nothing)

  enter_with_roles-global :
      (checkable : List Text) (tenant : Text) (u : User) (found : Option Membership) (w : World)
      → is_empty checkable ≡ false
      → all (is_global env.multi_tenancy env.sources) checkable ≡ true
      → is_ok (enter_with_roles members env checkable u tenant found w).0 ≡ true
      → any (λ r. user_has u r) checkable ≡ true
  unfolding enter_with_roles
  enter_with_roles-global checkable tenant u none w some_role global h = cc
  enter_with_roles-global checkable tenant u (some m) w some_role global h =
      ground (arith, member_satisfies-global checkable u m global)

  header_present-global :
      (checkable : List Text) (tenant : Text) (u : User) (w : World)
      → is_empty checkable ≡ false
      → all (is_global env.multi_tenancy env.sources) checkable ≡ true
      → is_ok (header_present members env checkable tenant (some u) false w).0 ≡ true
      → any (λ r. user_has u r) checkable ≡ true
  unfolding header_present find_membership
  header_present-global checkable tenant u w some_role global h =
      enter_with_roles-global checkable tenant u _ _ some_role global h

-- The roles of a handler and its class that are no system roles.
abbrev pub checkable_roles : Context → List Text
checkable_roles context =
    filter (λ r. not (is_system_role r))
      (merge_roles_metadata context.handler_roles context.class_roles)

-- No system role of the handler settles the request.
abbrev pub NoSystemRole : Context → Type 0
NoSystemRole context =
    (includes (system_check_roles context) s_everyone ≡ false)
    × (includes (system_check_roles context) s_user ≡ false)
    × (includes (system_check_roles context) s_verified ≡ false)

-- With multi-tenancy enabled and a context that has a request, take a handler whose roles are all of global authority, at least one,
-- with no S_EVERYONE, S_USER or S_VERIFIED and no skip of the tenant check, and a request with a
-- tenant header. If the guard lets a user without the administrators' bypass pass, the user's own
-- roles have one of them, whatever the membership's role is called.
pub can_activate-platform :
    (members : MemberModel) (env : Env) (config : MultiTenancy) (context : Context) (w : World)
    (u : User) (tenant : Text)
    → env.multi_tenancy ≡ some config
    → config.enabled ≡ true
    → context.has_request ≡ true
    → NoSystemRole context
    → context.skip_tenant_check ≡ false
    → parse_header w.request.header ≡ some tenant
    → w.request.user ≡ some u
    → is_admin config (some u) ≡ false
    → is_empty (checkable_roles context) ≡ false
    → all (is_global env.multi_tenancy env.sources) (checkable_roles context) ≡ true
    → is_ok (can_activate members env context w).0 ≡ true
    → any (λ r. user_has u r) (checkable_roles context) ≡ true
unfolding can_activate activate decide by_header
can_activate-platform members env config context w u tenant configured enabled there plain no_skip
      header who common some_role global passed =
    header_present-global members env (checkable_roles context) tenant u
      (record w { guard = observe_config members env config w.guard }) some_role global
      (ground arith)

-- With multi-tenancy enabled and a context that has a request, a request without a user passes only by S_EVERYONE, or if the handler
-- requires no role besides system roles and there is no tenant header or the tenant check is
-- skipped. Otherwise it is refused.
pub can_activate-anonymous :
    (members : MemberModel) (env : Env) (config : MultiTenancy) (context : Context) (w : World)
    → env.multi_tenancy ≡ some config
    → config.enabled ≡ true
    → context.has_request ≡ true
    → w.request.user ≡ none
    → is_ok (can_activate members env context w).0 ≡ true
    → (includes (system_check_roles context) s_everyone ≡ true)
      ⊎ ((is_empty (checkable_roles context) ≡ true)
          × ((parse_header w.request.header ≡ none) ⊎ (context.skip_tenant_check ≡ true)))
unfolding can_activate activate decide user_role verified_role by_header header_present no_header
    skip_with_user_role_check
can_activate-anonymous members env config context w configured enabled there nobody passed =
    ground arith
