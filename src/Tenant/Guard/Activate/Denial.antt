-- ===== src/Tenant/Guard/Activate/Denial.antt =====
-- The guard's refusals.
use nest_server.Prelude.{
  ◌≡◌, refl, Bool, true, false, not, Option, none, some, List, arith, filter, Text, text_eq,
  Bool-cases, Option-cases, inl, inr, includes,
}
use nest_server.Role.{s_no_one, is_system_role}
use nest_server.Tenant.Config.{MultiTenancy}
use nest_server.Tenant.Hierarchy.{merge_roles_metadata}
use nest_server.Tenant.Guard.State.{
  MemberModel, User, Context, Env, Outcome, ok, unauthorized, forbidden, World, Action,
  access_denied,
}
use nest_server.Tenant.Guard.Activate.{
  is_admin, set_bypass, find_membership, resolve_user_tenant_ids, enter_as_member,
  handle_system_role_with_tenant_header, skip_with_user_role_check, observe_config, note_membership,
  everyone, with_header, user_role, verified_role, enter_with_roles, header_present, no_header,
  by_header, decide, activate, can_activate, is_verified, system_check_roles, parse_header,
}

abbrev pub is_ok : Outcome Bool → Bool
is_ok (ok b) = true
is_ok unauthorized = false
is_ok (forbidden r) = false

-- An outcome that is no success leaves the request alone.
abbrev Refusing : Action Bool → Type 0
Refusing m = (w : World) → is_ok (m w).0 ≡ false → (m w).1.request ≡ w.request

module _ (members : MemberModel) (env : Env) where
  everyone-Refusing :
      (header : Option Text) (user : Option User) → Refusing (everyone members env header user)
  unfolding everyone find_membership note_membership
  everyone-Refusing header user w h = ground arith

  with_header-Refusing :
      (header : Option Text) (user : User) (skip bypass : Bool)
      → Refusing (with_header members env header user skip bypass)
  unfolding with_header handle_system_role_with_tenant_header find_membership enter_as_member
      set_bypass
  with_header-Refusing header user skip bypass w h = ground arith

  user_role-Refusing :
      (header : Option Text) (user : Option User) (skip bypass : Bool)
      → Refusing (user_role members env header user skip bypass)
  unfolding user_role
  user_role-Refusing header none skip bypass w h = refl
  user_role-Refusing header (some u) skip bypass w h = with_header-Refusing header u skip bypass w h

  verified_role-Refusing :
      (header : Option Text) (user : Option User) (skip bypass : Bool)
      → Refusing (verified_role members env header user skip bypass)
  unfolding verified_role
  verified_role-Refusing header none skip bypass w h = refl
  verified_role-Refusing header (some u) skip bypass w h = elim (Bool-cases (is_verified u)) [
    | inl good ↦ rw good (with_header-Refusing header u skip bypass w (rw good at h))
    | inr bad ↦ rw bad refl
  ]

  skip-Refusing :
      (checkable : List Text) (user : Option User) (bypass : Bool)
      → Refusing (skip_with_user_role_check members env checkable user bypass)
  unfolding skip_with_user_role_check
  skip-Refusing checkable user bypass w h = ground arith

  by_header-Refusing :
      (checkable : List Text) (header : Option Text) (user : Option User) (bypass : Bool)
      → Refusing (by_header members env checkable header user bypass)
  unfolding by_header header_present no_header find_membership enter_with_roles set_bypass
      resolve_user_tenant_ids
  by_header-Refusing checkable header user bypass w h = ground arith

  decide-Refusing :
      (context : Context) (roles system_roles : List Text) (header : Option Text)
      (user : Option User) (bypass : Bool)
      → Refusing (decide members env context roles system_roles header user bypass)
  unfolding decide
  decide-Refusing context roles system_roles header user bypass w h =
      let checkable = filter (λ r. not (is_system_role r)) roles in
      ground (
        arith,
        everyone-Refusing header user w,
        user_role-Refusing header user context.skip_tenant_check bypass w,
        verified_role-Refusing header user context.skip_tenant_check bypass w,
        skip-Refusing checkable user bypass w,
        by_header-Refusing checkable header user bypass w,
      )

  activate-Refusing :
      (config : MultiTenancy) (context : Context) → Refusing (activate members env config context)
  unfolding activate
  activate-Refusing config context w h = ground (
    arith,
    decide-Refusing context (merge_roles_metadata context.handler_roles context.class_roles)
        (system_check_roles context) (parse_header w.request.header) w.request.user
        (is_admin config w.request.user)
        (record w { guard = observe_config members env config w.guard }),
  )

  -- A request that the guard refuses is left as it was: no tenant, role, list or bypass is set.
  pub can_activate-refused :
      (context : Context) (w : World)
      → is_ok (can_activate members env context w).0 ≡ false
      → (can_activate members env context w).1.request ≡ w.request
  unfolding can_activate
  can_activate-refused context w h = elim (Option-cases env.multi_tenancy) [
    | inl off ↦ ground arith
    | inr (config, on) ↦ ground (arith, activate-Refusing config context w)
  ]

module _ (members : MemberModel) (env : Env) (config : MultiTenancy) (context : Context) (w : World)
    (configured : env.multi_tenancy ≡ some config) (enabled : config.enabled ≡ true)
    (has_request : context.has_request ≡ true) where
  -- With multi-tenancy enabled and a context that has a request, the role S_NO_ONE on the handler or
  -- its class refuses the request with access denied,
  -- whatever else holds.
  pub can_activate-no_one :
      includes (merge_roles_metadata context.handler_roles context.class_roles) s_no_one ≡ true
      → (can_activate members env context w).0 ≡ forbidden access_denied
  unfolding can_activate activate decide
  can_activate-no_one locked = ground arith
