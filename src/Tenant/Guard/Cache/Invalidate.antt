-- ===== src/Tenant/Guard/Cache/Invalidate.antt =====
-- Invalidation of one user, misses, and the bound on the caches.
use nest_server.Prelude.{
  ◌∷◌, ℕ, ◌≡◌, ◌≤◌, ◌<◌, not, Option, none, some, arith, Text, text_eq, ◌==◌, beq_refl, length,
  length-drop, if◌then◌else◌, starts_with,
}
use nest_server.Prelude.Dict.{
  Dict, get, set, get-filter_keys, length-set, length-delete, get-delete,
}
use nest_server.Tenant.Config.{Number}
use nest_server.Tenant.Guard.State.{MemberModel, Env, CoreTenantGuard}
use nest_server.Tenant.Guard.Cache.{
  user_prefix, membership_key, tenant_ids_key, evict_if_over_capacity, fresh_membership, fresh_ids,
  remember_membership, answer_membership, find_membership_cached, remember_ids, answer_ids,
  lookup_ids, clear_user, apply_invalidation, of_user, tenant_ids_of,
}
use nest_server.Tenant.Guard.Cache.Keys.{
  NoColon, belongs, starts_with-membership_key, belongs-tenant_ids_key,
}

-- For user ids without a colon, invalidating a user removes each of the user's cached memberships
-- and tenant ids, and leaves those of every other user.
pub clear_user-get :
    (u v tenant : Text) (min_level : Option Number) (g : CoreTenantGuard)
    → NoColon u
    → NoColon v
    → (get (clear_user u g).membership_cache (membership_key v tenant)
        ≡ (if v == u then none else get g.membership_cache (membership_key v tenant)))
      × (get (clear_user u g).tenant_ids_cache (tenant_ids_key v min_level)
          ≡ (if v == u then none else get g.tenant_ids_cache (tenant_ids_key v min_level)))
unfolding clear_user
clear_user-get u v tenant min_level g p q = (
  ground (
    arith,
    get-filter_keys (λ key. not (starts_with key (user_prefix u))) g.membership_cache
        (membership_key v tenant),
    starts_with-membership_key u v tenant p q,
  ),
  ground (
    arith,
    get-filter_keys (λ key. not (belongs u key)) g.tenant_ids_cache (tenant_ids_key v min_level),
    belongs-tenant_ids_key u v min_level p q,
  ),
)

abbrev pub IsBounded : CoreTenantGuard → Type 0
IsBounded g = (length g.membership_cache ≤ 500) × (length g.tenant_ids_cache ≤ 500)

module _ (members : MemberModel) (env : Env) where
  find_membership_cached-miss :
      (user tenant : Text) (g : CoreTenantGuard)
      → fresh_membership env.now (get g.membership_cache (membership_key user tenant)) ≡ none
      → (find_membership_cached members env user tenant g).0 ≡ members.find_one tenant user
  unfolding find_membership_cached answer_membership
  find_membership_cached-miss user tenant g h = ground arith

  lookup_ids-miss :
      (user : Text) (min_level : Option Number) (g : CoreTenantGuard)
      → get g.tenant_ids_cache (tenant_ids_key user min_level) ≡ none
      → (lookup_ids members env user min_level g).0 ≡ tenant_ids_of members env user min_level
  unfolding lookup_ids answer_ids fresh_ids
  lookup_ids-miss user min_level g h = ground arith

  -- After an invalidation message for a user whose id is not empty and has no colon, both lookups
  -- for that user answer what the collection answers.
  pub lookups-after_invalidation :
      (c : ℕ) (user tenant : Text) (min_level : Option Number) (g : CoreTenantGuard)
      → NoColon (c ∷ user)
      → ((find_membership_cached members env
            (c ∷ user)
            tenant
            (apply_invalidation (of_user (some (c ∷ user))) g)).0
          ≡ members.find_one tenant (c ∷ user))
        × ((lookup_ids members env
              (c ∷ user)
              min_level
              (apply_invalidation (of_user (some (c ∷ user))) g)).0
            ≡ tenant_ids_of members env (c ∷ user) min_level)
  unfolding apply_invalidation
  lookups-after_invalidation c user tenant min_level g p =
      let g' = clear_user (c ∷ user) g in
      let (no_membership, no_ids) = clear_user-get (c ∷ user) (c ∷ user) tenant min_level g p p in
      let same = beq_refl (c ∷ user) in
      (
        find_membership_cached-miss (c ∷ user) tenant g' (unfold fresh_membership in ground arith),
        lookup_ids-miss (c ∷ user) min_level g' (ground arith),
      )

  -- With a cache that is in use: a membership that the collection no longer holds, and whose cached copy
  -- has expired or is not there, is answered by none, and no copy of it, fresh or expired, is in the
  -- cache afterwards.
  pub find_membership_cached-revoked :
      (user tenant : Text) (g : CoreTenantGuard)
      → members.find_one tenant user ≡ none
      → fresh_membership env.now (get g.membership_cache (membership_key user tenant)) ≡ none
      → 0 < g.cache_ttl_ms
      → ((find_membership_cached members env user tenant g).0 ≡ none)
        × (get
              (find_membership_cached members env user tenant g).1.membership_cache
              (membership_key user tenant)
            ≡ none)
  unfolding find_membership_cached answer_membership remember_membership
  find_membership_cached-revoked user tenant g gone stale in_use = (
    ground arith,
    ground (
      arith,
      get-delete g.membership_cache (membership_key user tenant) (membership_key user tenant),
      beq_refl (membership_key user tenant),
    ),
  )

  length-set_evicted :
      {V : Type 0} (cache : Dict Text V) (key : Text) (v : V)
      → length cache ≤ 500
      → length (set (evict_if_over_capacity cache) key v) ≤ 500
  unfolding evict_if_over_capacity
  length-set_evicted cache key v h =
      ground (arith, length-set (evict_if_over_capacity cache) key v, length-drop 50 cache)

  find_membership_cached-IsBounded :
      (user tenant : Text) (g : CoreTenantGuard)
      → IsBounded g
      → IsBounded (find_membership_cached members env user tenant g).1
  unfolding find_membership_cached answer_membership remember_membership
  find_membership_cached-IsBounded user tenant g h =
      (grind (arith, length-delete, length-set_evicted), ground arith)

  lookup_ids-IsBounded :
      (user : Text) (min_level : Option Number) (g : CoreTenantGuard)
      → IsBounded g
      → IsBounded (lookup_ids members env user min_level g).1
  unfolding lookup_ids answer_ids remember_ids
  lookup_ids-IsBounded user min_level g h = (ground arith, grind (arith, length-set_evicted))

  -- Lookups keep each cache at 500 entries at most.
  pub lookups-IsBounded :
      (user tenant : Text) (min_level : Option Number) (g : CoreTenantGuard)
      → IsBounded g
      → IsBounded (find_membership_cached members env user tenant g).1
        × IsBounded (lookup_ids members env user min_level g).1
  lookups-IsBounded user tenant min_level g h =
      (find_membership_cached-IsBounded user tenant g h, lookup_ids-IsBounded user min_level g h)
