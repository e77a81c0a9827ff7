-- ===== src/Tenant/Guard/Activate/Keeps.antt =====
-- The steps of the guard, and the scope of the request.
use mathlib.Core.Option.{some-injective}
use mathlib.Core.Path.{subst}
use nest_server.Prelude.{
  ◌≡◌, refl, ◌∙◌, Bool, true, false, ◌||◌, Option, none, some, List, Text, text_eq, Bool-cases, inl,
  inr, ◌⊎◌, if◌then◌else◌, is_some, is_empty,
}
use nest_server.Tenant.Config.{Number}
use nest_server.Tenant.Hierarchy.{check_role_access}
use nest_server.Tenant.Guard.State.{
  Membership, MemberModel, User, Request, Env, World, Action, pure, ◌>>=◌, Reason, not_a_member,
  insufficient_role, insufficient_tenant_role,
}
use nest_server.Tenant.Guard.Cache.Keys.{NoColon}
use nest_server.Tenant.Guard.Cache.Sound.{
  All, Answers, HasRole, IsMember, Genuine, IsSound, find_membership_cached-IsSound,
  lookup_ids-IsSound,
}
use nest_server.Tenant.Guard.Activate.{
  set_tenant, set_bypass, find_membership, resolve_user_tenant_ids, enter_as_member,
  handle_system_role_with_tenant_header, skip_with_user_role_check, note_membership, with_header,
  enter_with_roles, raise_forbidden, raise_unauthorized, member_satisfies,
}

module _ (members : MemberModel) where
  -- What a request may carry: its tenant and role come from a membership of its user, unless the
  -- user has the bypass of administrators; the tenants of its list are the user's.
  pub record IsEntitled (user : Option User) (bypass : Bool) (q : Request) : Type 0 where
    pub one_tenant :
        (t : Text)
        → q.tenant_id ≡ some t
        → (bypass ≡ true)
          ⊎ ((u : User) × (r : Text) × (user ≡ some u)
              × (q.tenant_role ≡ some r)
              × HasRole members u.id t r)
    pub all_tenants :
        (ids : List Text)
        → q.tenant_ids ≡ some ids
        → (u : User) × (user ≡ some u) × All (IsMember members u.id) ids
    pub by_admin : q.is_admin_bypass ≡ true → bypass ≡ true

  abbrev pub PlainId : Option User → Type 0
  PlainId none = Unit
  PlainId (some u) = NoColon u.id

  module _ (env : Env) (answers : Answers members) (user : Option User) (bypass : Bool) where
    pub record IsSafe (w : World) : Type 0 where
      pub sound : IsSound members w.guard
      pub entitled : IsEntitled user bypass w.request

    -- Whatever the outcome, the action leaves a safe world safe.
    abbrev pub Keeps : Action Bool → Type 0
    Keeps m = (w : World) → IsSafe w → IsSafe (m w).1

    pub set_tenant-Keeps :
        (u : User) (t : Text) (m : Membership)
        → user ≡ some u
        → members.Attested m × (m.user ≡ u.id) × (m.tenant ≡ t)
        → Keeps (set_tenant t m.role)
    unfolding set_tenant
    set_tenant-Keeps u t m who held w s = record {
      sound = s.sound;
      entitled = record {
        one_tenant = λ t' same. inr (
          u,
          m.role,
          who,
          refl,
          record {
            member = m;
            attested = held.0;
            by_user = held.1;
            in_tenant = held.2 ∙ some-injective t t' same;
            with_role = refl;
          },
        );
        all_tenants = s.entitled.all_tenants;
        by_admin = s.entitled.by_admin;
      };
    }

    pub set_bypass-Keeps : (header : Option Text) → bypass ≡ true → Keeps (set_bypass header)
    unfolding set_bypass
    set_bypass-Keeps none allowed w s = record {
      sound = s.sound;
      entitled = record {
        one_tenant = s.entitled.one_tenant;
        all_tenants = s.entitled.all_tenants;
        by_admin = λ _. allowed;
      };
    }
    set_bypass-Keeps (some t) allowed w s = record {
      sound = s.sound;
      entitled = record {
        one_tenant = λ _ _. inl allowed;
        all_tenants = s.entitled.all_tenants;
        by_admin = λ _. allowed;
      };
    }

    -- A lookup hands a genuine answer to the rest.
    pub find_membership-Keeps :
        (u : User) (t : Text) (rest : Option Membership → Action Bool)
        → NoColon u.id
        → ((found : Option Membership) → Genuine members u.id t found → Keeps (rest found))
        → Keeps (find_membership members env u.id t >>= rest)
    unfolding find_membership
    find_membership-Keeps u t rest plain keep w s =
        let (sound, genuine) =
          find_membership_cached-IsSound members env answers u.id plain t w.guard s.sound in
        keep _ genuine _ (record { sound = sound; entitled = s.entitled })

    pub resolve_user_tenant_ids-Keeps :
        (u : User) (min_level : Option Number)
        → user ≡ some u
        → NoColon u.id
        → Keeps (resolve_user_tenant_ids members env u.id min_level)
    unfolding resolve_user_tenant_ids
    resolve_user_tenant_ids-Keeps u min_level who plain w s =
        elim (Bool-cases (is_some w.request.tenant_ids)) [
          | inl done ↦ rw done s
          | inr fresh ↦
              let (sound, held) =
                lookup_ids-IsSound members env answers u.id plain min_level w.guard s.sound in
              rw fresh (record {
                sound = sound;
                entitled = record {
                  one_tenant = s.entitled.one_tenant;
                  all_tenants = λ ids same. (
                    u,
                    who,
                    subst (All (IsMember members u.id)) (some-injective _ ids same) held,
                  );
                  by_admin = s.entitled.by_admin;
                };
              })
        ]

    pub pure-Keeps : (b : Bool) → Keeps (pure b)
    pure-Keeps b w s = s

    pub if-Keeps :
        (b : Bool) (m n : Action Bool)
        → (b ≡ true → Keeps m)
        → (b ≡ false → Keeps n)
        → Keeps (if b then m else n)
    if-Keeps true m n km kn = km refl
    if-Keeps false m n km kn = kn refl

    pub raise_forbidden-Keeps : (r : Reason) → Keeps (raise_forbidden r)
    unfolding raise_forbidden
    raise_forbidden-Keeps r w s = s

    pub raise_unauthorized-Keeps : Keeps raise_unauthorized
    unfolding raise_unauthorized
    raise_unauthorized-Keeps w s = s

    pub enter_with_roles-Keeps :
        (checkable : List Text) (u : User) (t : Text) (found : Option Membership)
        → user ≡ some u
        → Genuine members u.id t found
        → Keeps (enter_with_roles members env checkable u t found)
    unfolding enter_with_roles
    enter_with_roles-Keeps checkable u t none who g = raise_forbidden-Keeps not_a_member
    enter_with_roles-Keeps checkable u t (some m) who g =
        if-Keeps (is_empty checkable || member_satisfies members env checkable u m) _ _
          (λ _. set_tenant-Keeps u t m who (g m refl))
          (λ _. raise_forbidden-Keeps insufficient_tenant_role)

    pub enter_as_member-Keeps :
        (u : User) (t : Text) (found : Option Membership)
        → user ≡ some u
        → Genuine members u.id t found
        → Keeps (enter_as_member members env t found)
    unfolding enter_as_member
    enter_as_member-Keeps u t none who g = raise_forbidden-Keeps not_a_member
    enter_as_member-Keeps u t (some m) who g = set_tenant-Keeps u t m who (g m refl)

    pub note_membership-Keeps :
        (u : User) (t : Text) (found : Option Membership)
        → user ≡ some u
        → Genuine members u.id t found
        → Keeps (note_membership members env t found)
    unfolding note_membership
    note_membership-Keeps u t none who g = pure-Keeps true
    note_membership-Keeps u t (some m) who g = set_tenant-Keeps u t m who (g m refl)

    pub system_header-Keeps :
        (u : User) (t : Text)
        → user ≡ some u
        → NoColon u.id
        → Keeps (handle_system_role_with_tenant_header members env u t bypass)
    unfolding handle_system_role_with_tenant_header
    system_header-Keeps u t who plain =
        if-Keeps bypass _ _ (λ allowed. set_bypass-Keeps (some t) allowed)
          (λ _.
            find_membership-Keeps u t _ plain (λ found g. enter_as_member-Keeps u t found who g))

    pub with_header-Keeps :
        (header : Option Text) (u : User) (skip : Bool)
        → user ≡ some u
        → NoColon u.id
        → Keeps (with_header members env header u skip bypass)
    unfolding with_header
    with_header-Keeps none u skip who plain = pure-Keeps true
    with_header-Keeps (some t) u skip who plain =
        if-Keeps skip _ _ (λ _. pure-Keeps true) (λ _. system_header-Keeps u t who plain)

    pub skip-Keeps :
        (checkable : List Text) (u : Option User)
        → Keeps (skip_with_user_role_check members env checkable u bypass)
    unfolding skip_with_user_role_check
    skip-Keeps checkable none =
        if-Keeps (is_empty checkable) _ _ (λ _. pure-Keeps true) (λ _. raise_unauthorized-Keeps)
    skip-Keeps checkable (some u) =
        if-Keeps
          (is_empty checkable
            || bypass
            || check_role_access env.multi_tenancy checkable u.roles none)
          _ _ (λ _. pure-Keeps true) (λ _. raise_forbidden-Keeps insufficient_role)
