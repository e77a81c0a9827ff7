-- ===== src/Tenant/Guard/Resolve/Sound.antt =====
-- The tenant context that the guard resolves, and its user.
use nest_server.Tenant.Guard.Cache.Sound.{
  IsMember, All, Answers, IsSound, Genuine, find_membership_cached-IsSound, lookup_ids-IsSound,
}
use mathlib.Core.Option.{none-ne-some, some-injective}
use mathlib.Core.Path.{subst}
use nest_server.Prelude.{
  false≢true, ◌≡◌, refl, ◌∙◌, Bool, true, false, Option, none, some, arith, Text, Bool-cases, inl,
  inr, is_empty,
}
use nest_server.Tenant.Config.{MultiTenancy}
use nest_server.Tenant.Guard.State.{Membership, MemberModel, User, Request, Env, CoreTenantGuard}
use nest_server.Tenant.Guard.Cache.{find_membership_cached}
use nest_server.Tenant.Guard.Cache.Keys.{NoColon}
use nest_server.Tenant.Guard.Activate.{is_admin, parse_header}
use nest_server.Tenant.Guard.Activate.Keeps.{IsEntitled, PlainId}
use nest_server.Tenant.Guard.Resolve.{
  TenantContext, no_context, member_context, user_context, resolve_for, resolve_tenant_context,
}

-- A request that carries a context.
abbrev pub carrying : Option User → TenantContext → Request
carrying user c = record {
  user = user;
  header = none;
  tenant_id = c.tenant_id;
  tenant_role = c.tenant_role;
  is_admin_bypass = c.is_admin_bypass;
  tenant_ids = c.tenant_ids;
}

module _ (members : MemberModel) where
  no_context-IsEntitled :
      (user : Option User) (bypass : Bool)
      → IsEntitled members user bypass (carrying user no_context)
  no_context-IsEntitled user bypass = record {
    one_tenant = λ t h. absurd (none-ne-some t h);
    all_tenants = λ ids h. absurd (none-ne-some ids h);
    by_admin = λ h. absurd (false≢true h);
  }

  member_context-IsEntitled :
      (u : User) (bypass : Bool) (t : Text) (found : Option Membership)
      → Genuine members u.id t found
      → IsEntitled members (some u) bypass (carrying (some u) (member_context t found))
  member_context-IsEntitled u bypass t none genuine = no_context-IsEntitled (some u) bypass
  member_context-IsEntitled u bypass t (some m) genuine =
      let held = genuine m refl in
      record {
        one_tenant = λ t' same. inr (
          u,
          m.role,
          refl,
          refl,
          record {
            member = m;
            attested = held.0;
            by_user = held.1;
            in_tenant = held.2 ∙ some-injective t t' same;
            with_role = refl;
          },
        );
        all_tenants = λ ids h. absurd (none-ne-some ids h);
        by_admin = λ h. absurd (false≢true h);
      }

  module _ (env : Env) (answers : Answers members) where
    user_context-IsEntitled :
        (u : User) (bypass : Bool) (header : Option Text) (g : CoreTenantGuard)
        → NoColon u.id
        → IsSound members g
        → IsSound members (user_context members env u.id header g).1
          × IsEntitled members
              (some u)
              bypass
              (carrying (some u) (user_context members env u.id header g).0)
    unfolding user_context
    user_context-IsEntitled u bypass (some t) g plain sound =
        let (sound', genuine) =
          find_membership_cached-IsSound members env answers u.id plain t g sound in
        (
          sound',
          member_context-IsEntitled u bypass t (find_membership_cached members env u.id t g).0
              genuine,
        )
    user_context-IsEntitled u bypass none g plain sound =
        let (sound', mine) = lookup_ids-IsSound members env answers u.id plain none g sound in
        (
          sound',
          record {
            one_tenant = λ t h. absurd (none-ne-some t h);
            all_tenants = λ ids h.
                (u, refl, subst (All (IsMember members u.id)) (some-injective _ ids h) mine);
            by_admin = λ h. absurd (false≢true h);
          },
        )

    resolve_for-IsEntitled :
        (config : MultiTenancy) (user : Option User) (header : Option Text) (g : CoreTenantGuard)
        → PlainId members user
        → IsSound members g
        → IsSound members (resolve_for members env config user header g).1
          × IsEntitled members user
              (is_admin config user)
              (carrying user (resolve_for members env config user header g).0)
    unfolding resolve_for
    resolve_for-IsEntitled config none header g plain sound =
        (sound, no_context-IsEntitled none (is_admin config none))
    resolve_for-IsEntitled config (some u) header g plain sound =
        elim (Bool-cases (is_admin config (some u))) [
          | inl admin ↦
              rw (admin, resolve_for)
                (
                  sound,
                  record {
                    one_tenant = λ t h. inl refl;
                    all_tenants = λ ids h. absurd (none-ne-some ids h);
                    by_admin = λ h. refl;
                  },
                )
          | inr plain_user ↦ elim (Bool-cases (is_empty u.id)) [
            | inl empty ↦
                rw (plain_user, empty, resolve_for) (sound, no_context-IsEntitled (some u) false)
            | inr named ↦
                rw (plain_user, named, resolve_for)
                  (user_context-IsEntitled u false header g plain sound)
          ]
        ]

    -- The context that the guard resolves for a user (if any) whose id has no colon, under an enabled
    -- configuration and with sound caches, holds only scope that the user is entitled to, and the
    -- caches stay sound.
    pub resolve_tenant_context-IsEntitled :
        (config : MultiTenancy) (user : Option User) (header : Option Text) (g : CoreTenantGuard)
        → env.multi_tenancy ≡ some config
        → config.enabled ≡ true
        → PlainId members user
        → IsSound members g
        → IsSound members (resolve_tenant_context members env user header g).1
          × IsEntitled members user
              (is_admin config user)
              (carrying user (resolve_tenant_context members env user header g).0)
    unfolding resolve_tenant_context
    resolve_tenant_context-IsEntitled config user header g same enabled plain sound =
        let answer : resolve_tenant_context members env user header g
            ≡ resolve_for members env config user (parse_header header) g =
          ground arith in
        rw answer (resolve_for-IsEntitled config user (parse_header header) g plain sound)
