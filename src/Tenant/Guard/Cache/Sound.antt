-- ===== src/Tenant/Guard/Cache/Sound.antt =====
-- The caches, and the memberships of the collection.
use mathlib.Core.Path.{subst}
use mathlib.Core.Option.{none-ne-some}
use nest_server.Prelude.{
  beq_refl, ℕ, ◌≡◌, refl, sym, ◌∙◌, Bool, true, Option, none, some, List, [], ◌∷◌, arith, map,
  filter, Text, text_eq, text_beq_iff, Bool-cases, inl, inr, length, leb, ltb,
}
use nest_server.Prelude.Dict.{
  Dict, Every, Every-get, Every-set, Every-delete, Every-drop, Every-filter,
}
use nest_server.Tenant.Config.{Number}
use nest_server.Tenant.Guard.State.{
  Membership, MemberModel, Env, CachedMembership, CachedTenantIds, CoreTenantGuard,
}
use nest_server.Tenant.Guard.Cache.{
  membership_key, tenant_ids_key, evict_if_over_capacity, fresh_membership, fresh_ids,
  remember_membership, answer_membership, find_membership_cached, tenant_ids_of, remember_ids,
  answer_ids, lookup_ids, clear_all, clear_user, evict_expired,
}
use nest_server.Tenant.Guard.Cache.Keys.{
  NoColon, belongs, membership_key_inj, belongs-tenant_ids_key,
}

abbrev pub All {ℓ κ} : {A : Type ℓ} → (A → Type κ) → List A → Type κ
All P [] = Unit
All P (x ∷ xs) = P x × All P xs

All-map {ℓ κ} :
    {A B : Type ℓ} (P : A → Type κ) (Q : B → Type κ) (f : A → B)
    → ((x : A) → P x → Q (f x))
    → (xs : List A) → All P xs
    → All Q (map f xs)
All-map P Q f h [] a = tt
All-map P Q f h (x ∷ xs) a = (h x a.0, All-map P Q f h xs a.1)

All-filter {ℓ κ} :
    {A : Type ℓ} (P : A → Type κ) (p : A → Bool) (xs : List A) → All P xs → All P (filter p xs)
unfolding filter
All-filter P p [] a = tt
All-filter P p (x ∷ xs) a = elim (Bool-cases (p x)) [
  | inl kept ↦ rw kept (a.0, All-filter P p xs a.1)
  | inr gone ↦ rw gone (All-filter P p xs a.1)
]

module _ (members : MemberModel) where
  -- What the queries of the collection promise: an answer is a membership that the collection held
  -- as active, of the user (and of the tenant) that was asked for.
  pub record Answers : Type 0 where
    pub one :
        (tenant user : Text) (m : Membership)
        → members.find_one tenant user ≡ some m
        → members.Attested m × (m.user ≡ user) × (m.tenant ≡ tenant)
    pub many : (user : Text) → All (λ m. members.Attested m × (m.user ≡ user)) (members.find user)

  -- The user has had an active membership in the tenant, with the role.
  pub record HasRole (user tenant role : Text) : Type 0 where
    pub member : Membership
    pub attested : members.Attested member
    pub by_user : member.user ≡ user
    pub in_tenant : member.tenant ≡ tenant
    pub with_role : member.role ≡ role

  -- The user has had an active membership in the tenant.
  pub record IsMember (user tenant : Text) : Type 0 where
    pub member : Membership
    pub attested : members.Attested member
    pub by_user : member.user ≡ user
    pub in_tenant : member.tenant ≡ tenant

  abbrev pub Genuine : Text → Text → Option Membership → Type 0
  Genuine user tenant found =
      (m : Membership) → found ≡ some m → members.Attested m × (m.user ≡ user) × (m.tenant ≡ tenant)

  abbrev pub GoodMembership : Text → CachedMembership → Type 0
  GoodMembership key entry =
      (user tenant : Text)
      → NoColon user
      → key ≡ membership_key user tenant
      → Genuine user tenant entry.result

  abbrev pub GoodIds : Text → CachedTenantIds → Type 0
  GoodIds key entry =
      (user : Text) → NoColon user → belongs user key ≡ true → All (IsMember user) entry.ids

  pub record IsSound (g : CoreTenantGuard) : Type 0 where
    pub memberships : Every GoodMembership g.membership_cache
    pub tenant_ids : Every GoodIds g.tenant_ids_cache

  Every-evict :
      {V : Type 0} (P : Text → V → Type 0) (cache : Dict Text V)
      → Every P cache
      → Every P (evict_if_over_capacity cache)
  unfolding evict_if_over_capacity
  Every-evict P cache h = elim (Bool-cases (leb 500 (length cache))) [
    | inl full ↦ rw full (Every-drop P 50 cache h)
    | inr room ↦ rw room h
  ]

  pub IsSound-clear_all : (g : CoreTenantGuard) → IsSound (clear_all g)
  unfolding clear_all
  IsSound-clear_all g = record { memberships = tt; tenant_ids = tt }

  pub IsSound-clear_user : (u : Text) (g : CoreTenantGuard) → IsSound g → IsSound (clear_user u g)
  unfolding clear_user
  IsSound-clear_user u g s = record {
    memberships = Every-filter GoodMembership _ g.membership_cache s.memberships;
    tenant_ids = Every-filter GoodIds _ g.tenant_ids_cache s.tenant_ids;
  }

  pub IsSound-evict_expired :
      (now : ℕ) (g : CoreTenantGuard) → IsSound g → IsSound (evict_expired now g)
  unfolding evict_expired
  IsSound-evict_expired now g s = record {
    memberships = Every-filter GoodMembership _ g.membership_cache s.memberships;
    tenant_ids = Every-filter GoodIds _ g.tenant_ids_cache s.tenant_ids;
  }

  module _ (env : Env) (answers : Answers) (user : Text) (plain : NoColon user) where
    remember_membership-IsSound :
        (ttl : ℕ) (tenant : Text) (found : Option Membership) (g : CoreTenantGuard)
        → Genuine user tenant found
        → IsSound g
        → IsSound (remember_membership members env ttl (membership_key user tenant) found g)
    unfolding remember_membership
    remember_membership-IsSound ttl tenant none g h s = record {
      memberships = Every-delete GoodMembership g.membership_cache _ s.memberships;
      tenant_ids = s.tenant_ids;
    }
    remember_membership-IsSound ttl tenant (some m) g h s = record {
      memberships =
          Every-set GoodMembership (evict_if_over_capacity g.membership_cache) _ _
            (Every-evict GoodMembership g.membership_cache s.memberships)
            (λ v t p e m' same.
              let (eu, et) = membership_key_inj user v tenant t plain p e in
              let (a, bu, bt) = h m' same in (a, bu ∙ eu, bt ∙ et));
      tenant_ids = s.tenant_ids;
    }

    fresh_membership-eq :
        (now : ℕ) (found : Option CachedMembership) (entry : CachedMembership)
        → fresh_membership now found ≡ some entry
        → found ≡ some entry
    unfolding fresh_membership
    fresh_membership-eq now none entry h = h
    fresh_membership-eq now (some e) entry h = ground arith

    fresh_ids-eq :
        (now : ℕ) (found : Option CachedTenantIds) (entry : CachedTenantIds)
        → fresh_ids now found ≡ some entry
        → found ≡ some entry
    unfolding fresh_ids
    fresh_ids-eq now none entry h = h
    fresh_ids-eq now (some e) entry h = ground arith

    answer_membership-IsSound :
        (tenant : Text) (found : Option CachedMembership) (g : CoreTenantGuard)
        → ((entry : CachedMembership) → found ≡ some entry → Genuine user tenant entry.result)
        → IsSound g
        → IsSound (answer_membership members env user tenant found g).1
          × Genuine user tenant (answer_membership members env user tenant found g).0
    unfolding answer_membership
    answer_membership-IsSound tenant (some entry) g h s = (s, h entry refl)
    answer_membership-IsSound tenant none g h s =
        let fetched : Genuine user tenant (members.find_one tenant user) =
          λ m found. answers.one tenant user m found in
        (remember_membership-IsSound g.cache_ttl_ms tenant _ g fetched s, fetched)

    -- A lookup keeps the caches sound, and what it finds is genuine.
    pub find_membership_cached-IsSound :
        (tenant : Text) (g : CoreTenantGuard)
        → IsSound g
        → IsSound (find_membership_cached members env user tenant g).1
          × Genuine user tenant (find_membership_cached members env user tenant g).0
    unfolding find_membership_cached
    find_membership_cached-IsSound tenant g s = elim (Bool-cases (leb g.cache_ttl_ms 0)) [
      | inl off ↦ rw off (s, λ m found. answers.one tenant user m found)
      | inr on ↦ rw on (
          answer_membership-IsSound tenant _ g
            (λ entry found.
              Every-get GoodMembership g.membership_cache (membership_key user tenant) s.memberships
                (fresh_membership-eq env.now _ entry found) user tenant plain refl)
            s)
    ]

    tenant_ids_of-IsMember :
        (min_level : Option Number) → All (IsMember user) (tenant_ids_of members env user min_level)
    unfolding tenant_ids_of
    tenant_ids_of-IsMember none =
        All-map _ (IsMember user) (λ m. m.tenant)
          (λ m held. record { member = m; attested = held.0; by_user = held.1; in_tenant = refl })
          (members.find user) (answers.many user)
    tenant_ids_of-IsMember (some n) =
        All-map _ (IsMember user) (λ m. m.tenant)
          (λ m held. record { member = m; attested = held.0; by_user = held.1; in_tenant = refl }) _
          (All-filter _ _ (members.find user) (answers.many user))

    remember_ids-IsSound :
        (min_level : Option Number) (ids : List Text) (g : CoreTenantGuard)
        → All (IsMember user) ids
        → IsSound g
        → IsSound (remember_ids members env (tenant_ids_key user min_level) ids g)
    unfolding remember_ids
    remember_ids-IsSound min_level ids g h s = elim (Bool-cases (ltb 0 g.cache_ttl_ms)) [
      | inl on ↦ rw on (record {
        memberships = s.memberships;
        tenant_ids =
            Every-set GoodIds (evict_if_over_capacity g.tenant_ids_cache) _ _
              (Every-evict GoodIds g.tenant_ids_cache s.tenant_ids)
              (λ v p owned.
                let same : user ≡ v =
                  (text_beq_iff user v).0
                    (sym (belongs-tenant_ids_key v user min_level p plain) ∙ owned) in
                subst (λ u. All (IsMember u) ids) same h);
      })
      | inr off ↦ rw off s
    ]

    answer_ids-IsSound :
        (min_level : Option Number) (found : Option CachedTenantIds) (g : CoreTenantGuard)
        → ((entry : CachedTenantIds) → found ≡ some entry → All (IsMember user) entry.ids)
        → IsSound g
        → IsSound (answer_ids members env user min_level found g).1
          × All (IsMember user) (answer_ids members env user min_level found g).0
    unfolding answer_ids
    answer_ids-IsSound min_level (some entry) g h s = (s, h entry refl)
    answer_ids-IsSound min_level none g h s =
        let fetched = tenant_ids_of-IsMember min_level in
        (remember_ids-IsSound min_level _ g fetched s, fetched)

    -- A lookup of tenant ids keeps the caches sound, and the user is a member of all that it finds.
    pub lookup_ids-IsSound :
        (min_level : Option Number) (g : CoreTenantGuard)
        → IsSound g
        → IsSound (lookup_ids members env user min_level g).1
          × All (IsMember user) (lookup_ids members env user min_level g).0
    unfolding lookup_ids
    lookup_ids-IsSound min_level g s = elim (Bool-cases (ltb 0 g.cache_ttl_ms)) [
      | inl on ↦ rw on (
          answer_ids-IsSound min_level _ g
            (λ entry found.
              Every-get GoodIds g.tenant_ids_cache (tenant_ids_key user min_level) s.tenant_ids
                (fresh_ids-eq env.now _ entry found) user plain
                (belongs-tenant_ids_key user user min_level plain plain ∙ beq_refl user))
            s)
      | inr off ↦
          rw off
            (answer_ids-IsSound min_level none g (λ entry found. absurd (none-ne-some _ found)) s)
    ]
