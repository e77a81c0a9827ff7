-- ===== src/Tenant/Guard/Activate/Sound.antt =====
-- The tenant scope after the guard, and its user.
use mathlib.Core.Option.{none-ne-some}
use nest_server.Prelude.{
  false≢true, ◌≡◌, refl, sym, ◌∙◌, Bool, true, false, not, ◌&&◌, ◌||◌, Option, none, some, List,
  arith, filter, Text, text_eq, Bool-cases, inl, inr, if◌then◌else◌, is_some, is_empty, includes,
}
use nest_server.Role.{s_no_one, s_everyone, s_user, s_verified, is_system_role}
use nest_server.Tenant.Config.{MultiTenancy, Number}
use nest_server.Tenant.Hierarchy.{check_role_access, get_min_required_level, merge_roles_metadata}
use nest_server.Tenant.Guard.State.{
  MemberModel, User, Context, Env, CoreTenantGuard, Outcome, World, insufficient_role,
  access_denied, verification_required,
}
use nest_server.Tenant.Guard.Cache.Sound.{Answers, IsSound, IsSound-clear_all}
use nest_server.Tenant.Guard.Activate.{
  is_admin, observe_config, everyone, user_role, verified_role, header_present, no_header,
  by_header, decide, activate, can_activate, is_verified, should_skip_better_auth, is_seen,
  system_check_roles, parse_header,
}
use nest_server.Tenant.Guard.Activate.Keeps.{
  IsEntitled, PlainId, IsSafe, Keeps, set_bypass-Keeps, find_membership-Keeps,
  resolve_user_tenant_ids-Keeps, pure-Keeps, if-Keeps, raise_forbidden-Keeps,
  raise_unauthorized-Keeps, enter_with_roles-Keeps, note_membership-Keeps, with_header-Keeps,
  skip-Keeps,
}

-- A property of both ends of a branch.
pick :
    (P : World → Type 0) (b : Bool) (x y : Outcome Bool × World)
    → P x.1
    → P y.1
    → P (if b then x else y).1
pick P true x y h k = h
pick P false x y h k = k

module _ (members : MemberModel) where
  module _ (env : Env) (answers : Answers members) (bypass : Bool) where
    everyone-Keeps :
        (header : Option Text) (user : Option User)
        → PlainId members user
        → Keeps members env answers user bypass (everyone members env header user)
    unfolding everyone
    everyone-Keeps none user plain = pure-Keeps members env answers user bypass true
    everyone-Keeps (some t) none plain = pure-Keeps members env answers none bypass true
    everyone-Keeps (some t) (some u) plain =
        if-Keeps members env answers (some u) bypass (is_empty u.id) _ _
          (λ _. pure-Keeps members env answers (some u) bypass true)
          (λ _.
            find_membership-Keeps members env answers (some u) bypass u t _ plain (λ found g.
              note_membership-Keeps members env answers (some u) bypass u t found refl g))

    user_role-Keeps :
        (header : Option Text) (user : Option User) (skip : Bool)
        → PlainId members user
        → Keeps members env answers user bypass (user_role members env header user skip bypass)
    unfolding user_role
    user_role-Keeps header none skip plain =
        raise_unauthorized-Keeps members env answers none bypass
    user_role-Keeps header (some u) skip plain =
        with_header-Keeps members env answers (some u) bypass header u skip refl plain

    verified_role-Keeps :
        (header : Option Text) (user : Option User) (skip : Bool)
        → PlainId members user
        → Keeps members env answers user bypass (verified_role members env header user skip bypass)
    unfolding verified_role
    verified_role-Keeps header none skip plain =
        raise_unauthorized-Keeps members env answers none bypass
    verified_role-Keeps header (some u) skip plain =
        if-Keeps members env answers (some u) bypass (is_verified u) _ _
          (λ _. with_header-Keeps members env answers (some u) bypass header u skip refl plain)
          (λ _. raise_forbidden-Keeps members env answers (some u) bypass verification_required)

    by_header-Keeps :
        (checkable : List Text) (header : Option Text) (user : Option User)
        → PlainId members user
        → Keeps members env answers user bypass (by_header members env checkable header user bypass)
    unfolding by_header header_present no_header
    by_header-Keeps checkable none none plain =
        if-Keeps members env answers none bypass (is_empty checkable) _ _
          (λ _. pure-Keeps members env answers none bypass true)
          (λ _. raise_unauthorized-Keeps members env answers none bypass)
    by_header-Keeps checkable (some t) none plain =
        raise_unauthorized-Keeps members env answers none bypass
    by_header-Keeps checkable (some t) (some u) plain =
        if-Keeps members env answers (some u) bypass bypass _ _
          (λ allowed. set_bypass-Keeps members env answers (some u) bypass (some t) allowed)
          (λ _. find_membership-Keeps members env answers (some u) bypass u t _ plain (λ found g.
            enter_with_roles-Keeps members env answers (some u) bypass checkable u t found refl g))
    by_header-Keeps checkable none (some u) plain =
        let resolve = λ (n : Option Number).
          resolve_user_tenant_ids-Keeps members env answers (some u) bypass u n refl plain in
        if-Keeps members env answers (some u) bypass bypass _ _
          (λ allowed. set_bypass-Keeps members env answers (some u) bypass none allowed)
          (λ _.
            if-Keeps members env answers (some u) bypass (is_empty checkable) _ _
              (λ _. resolve none)
              (λ _.
                if-Keeps members env answers (some u) bypass
                  (check_role_access env.multi_tenancy checkable u.roles none) _ _
                  (λ _. resolve (get_min_required_level env.multi_tenancy checkable))
                  (λ _.
                    raise_forbidden-Keeps members env answers (some u) bypass insufficient_role)))

    decide-Keeps :
        (context : Context) (roles system_roles : List Text) (header : Option Text)
        (user : Option User)
        → PlainId members user
        → Keeps members env answers user bypass
            (decide members env context roles system_roles header user bypass)
    unfolding decide
    decide-Keeps context roles system_roles header user plain =
        let checkable = filter (λ r. not (is_system_role r)) roles in
        let skip =
          context.skip_tenant_check
          || (not (is_some header)
              && context.is_better_auth
              && should_skip_better_auth env.better_auth) in
        let branch = if-Keeps members env answers user bypass in
        branch (includes roles s_no_one) _ _
          (λ _. raise_forbidden-Keeps members env answers user bypass access_denied)
          (λ _.
            branch (includes system_roles s_everyone) _ _ (λ _. everyone-Keeps header user plain)
              (λ _.
                branch (includes system_roles s_user) _ _
                  (λ _. user_role-Keeps header user context.skip_tenant_check plain)
                  (λ _.
                    branch (includes system_roles s_verified) _ _
                      (λ _. verified_role-Keeps header user context.skip_tenant_check plain)
                      (λ _.
                        branch skip _ _
                          (λ _. skip-Keeps members env answers user bypass checkable user)
                          (λ _. by_header-Keeps checkable header user plain)))))

    observe_config-IsSound :
        (config : MultiTenancy) (g : CoreTenantGuard)
        → IsSound members g
        → IsSound members (observe_config members env config g)
    unfolding observe_config
    observe_config-IsSound config g s =
        elim (Bool-cases (is_seen g.last_seen_config env.config_ref)) [
          | inl seen ↦ rw seen s
          | inr fresh ↦ rw fresh (IsSound-clear_all members _)
        ]

  activate-IsSafe :
      (env : Env) (answers : Answers members) (config : MultiTenancy) (context : Context)
      (w : World)
      → PlainId members w.request.user
      → IsSafe members env answers w.request.user (is_admin config w.request.user) w
      → IsSafe members env answers w.request.user
          (is_admin config w.request.user)
          (activate members env config context w).1
  unfolding activate
  activate-IsSafe env answers config context w plain s =
      let bypass = is_admin config w.request.user in
      let flushed : IsSafe members env answers w.request.user bypass
          (record w { guard = observe_config members env config w.guard }) =
        record {
          sound = observe_config-IsSound env answers bypass config w.guard s.sound;
          entitled = s.entitled;
        } in
      pick (IsSafe members env answers w.request.user bypass) (not context.has_request) _ _ flushed
        (decide-Keeps env answers bypass context
          (merge_roles_metadata context.handler_roles context.class_roles)
          (system_check_roles context) (parse_header w.request.header) w.request.user plain _
          flushed)

  can_activate-activate :
      (env : Env) (config : MultiTenancy) (context : Context) (w : World)
      → env.multi_tenancy ≡ some config
      → config.enabled ≡ true
      → can_activate members env context w ≡ activate members env config context w
  unfolding can_activate
  can_activate-activate env config context w same enabled = ground arith

  -- For an enabled configuration, sound caches and a user (if any) whose id has no colon, a request
  -- that carried no tenant scope carries after the guard, whatever the outcome, only scope that the
  -- user is entitled to: a tenant and role of one of the user's memberships or the bypass of an
  -- administrator, and tenants that the user is a member of. The caches stay sound.
  pub can_activate-IsEntitled :
      (env : Env) (answers : Answers members) (config : MultiTenancy) (context : Context)
      (w : World)
      → env.multi_tenancy ≡ some config
      → config.enabled ≡ true
      → PlainId members w.request.user
      → IsSound members w.guard
      → w.request.tenant_id ≡ none
      → w.request.tenant_ids ≡ none
      → w.request.is_admin_bypass ≡ false
      → IsSound members (can_activate members env context w).1.guard
        × IsEntitled members w.request.user
            (is_admin config w.request.user)
            (can_activate members env context w).1.request
  can_activate-IsEntitled env answers config context w same enabled plain sound no_tenant no_list
        no_bypass =
      let bypass = is_admin config w.request.user in
      let start : IsEntitled members w.request.user bypass w.request = record {
        one_tenant = λ t h. absurd (none-ne-some t (sym no_tenant ∙ h));
        all_tenants = λ ids h. absurd (none-ne-some ids (sym no_list ∙ h));
        by_admin = λ h. absurd (false≢true (sym no_bypass ∙ h));
      } in
      let done =
        activate-IsSafe env answers config context w plain
          (record { sound = sound; entitled = start }) in
      rw (can_activate-activate env config context w same enabled) (done.sound, done.entitled)
