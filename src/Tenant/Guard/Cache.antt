-- ===== src/Tenant/Guard/Cache.antt =====
-- The two caches of the guard: membership by user and tenant, tenant ids by user and level.
-- The interval that calls `evict_expired`, the Redis channel and the log are not modelled; a message
-- that another replica sent is applied as it was parsed.
pub mod Keys
pub mod Sound
pub mod Invalidate
use nest_server.Prelude.{
  ℕ, zero, suc, ◌+◌, ◌/◌, ◌%◌, Bool, true, false, not, ◌&&◌, ◌||◌, Option, none, some, List, [],
  ◌∷◌, ◌++◌, map, Text, text, text_eq, ◌==◌, ltb, leb, if◌then◌else◌, filter, length, drop,
  starts_with, or_else,
}
use nest_server.Prelude.Dict.{Dict, get, set, delete}
use nest_server.Tenant.Config.{MultiTenancy, Number, level, in_hierarchy, get_role_hierarchy}
use nest_server.Tenant.Hierarchy.{at_least}
use nest_server.Tenant.Guard.State.{
  Membership, MemberModel, User, Request, Env, CachedMembership, CachedTenantIds, CoreTenantGuard,
  World, Action, pure,
}

abbrev pub max_cache_size : ℕ
max_cache_size = 500

-- `${userId}:`
abbrev pub user_prefix : Text → Text
user_prefix user_id = user_id ++ b':' ∷ []

-- `${userId}:${tenantId}`
unfoldable pub membership_key : Text → Text → Text
membership_key user_id tenant_id = user_prefix user_id ++ tenant_id

-- String(n) for a natural number, on fuel; n + 1 rounds are enough
unfoldable pub decimal_from : ℕ → ℕ → Text → Text
decimal_from zero n digits = digits
decimal_from (suc fuel) n digits =
    let more = decimal_from fuel (n / 10) ((b'0' + n % 10) ∷ digits) in
    if ltb n 10 then (b'0' + n) ∷ digits else more

unfoldable pub number_text : Number → Text
unfolding text
number_text none = text "NaN"
number_text (some n) = decimal_from (suc n) n []

-- The user id alone, or with the least level behind it.
unfoldable pub tenant_ids_key : Text → Option Number → Text
tenant_ids_key user_id none = user_id
tenant_ids_key user_id (some min_level) = user_prefix user_id ++ number_text min_level

-- evictIfOverCapacity: at the cap the first tenth goes, in insertion order
unfoldable pub evict_if_over_capacity : {V : Type 0} → Dict Text V → Dict Text V
evict_if_over_capacity cache = if leb max_cache_size (length cache) then drop 50 cache else cache

-- evictExpired
unfoldable pub evict_expired : ℕ → CoreTenantGuard → CoreTenantGuard
evict_expired now g = record g {
  membership_cache = filter (λ entry. ltb now entry.1.expires_at) g.membership_cache;
  tenant_ids_cache = filter (λ entry. ltb now entry.1.expires_at) g.tenant_ids_cache;
}

-- clearAll
unfoldable pub clear_all : CoreTenantGuard → CoreTenantGuard
clear_all g = record g { membership_cache = []; tenant_ids_cache = [] }

-- clearUser
unfoldable pub clear_user : Text → CoreTenantGuard → CoreTenantGuard
clear_user user_id g = record g {
  membership_cache =
      filter (λ entry. not (starts_with entry.0 (user_prefix user_id))) g.membership_cache;
  tenant_ids_cache =
      filter (λ entry. not (entry.0 == user_id || starts_with entry.0 (user_prefix user_id)))
        g.tenant_ids_cache;
}

-- TenantCacheInvalidation, as it was parsed
pub data Invalidation : Type 0 where
  everything malformed : Invalidation
  of_user : Option Text → Invalidation

-- applyInvalidation; a user id that is absent or empty is ignored
unfoldable pub apply_invalidation : Invalidation → CoreTenantGuard → CoreTenantGuard
apply_invalidation everything g = clear_all g
apply_invalidation malformed g = g
apply_invalidation (of_user none) g = g
apply_invalidation (of_user (some [])) g = g
apply_invalidation (of_user (some (c ∷ user_id))) g = clear_user (c ∷ user_id) g

-- An entry that has not expired.
unfoldable pub fresh_membership : ℕ → Option CachedMembership → Option CachedMembership
fresh_membership now none = none
fresh_membership now (some entry) = if ltb now entry.expires_at then some entry else none

unfoldable pub fresh_ids : ℕ → Option CachedTenantIds → Option CachedTenantIds
fresh_ids now none = none
fresh_ids now (some entry) = if ltb now entry.expires_at then some entry else none

-- hierarchy[role] ?? 0: a name of the prototype is a function, which counts as NaN
unfoldable pub level_or_zero : Dict Text ℕ → Text → Number
level_or_zero hierarchy role = if in_hierarchy hierarchy role then level hierarchy role else some 0

module _ (members : MemberModel) (env : Env) where
  -- The part of findMembershipCached after a miss: only positive answers are kept.
  unfoldable pub remember_membership :
      ℕ → Text → Option Membership → CoreTenantGuard → CoreTenantGuard
  remember_membership ttl key none g = record g { membership_cache = delete g.membership_cache key }
  remember_membership ttl key (some m) g = record g {
    membership_cache =
        set (evict_if_over_capacity g.membership_cache) key
          (record { expires_at = env.now + ttl; result = some m });
  }

  unfoldable pub answer_membership :
      Text → Text → Option CachedMembership → CoreTenantGuard → Option Membership × CoreTenantGuard
  answer_membership user_id tenant_id (some entry) g = (entry.result, g)
  answer_membership user_id tenant_id none g =
      let result = members.find_one tenant_id user_id in
      (result, remember_membership g.cache_ttl_ms (membership_key user_id tenant_id) result g)

  -- findMembershipCached
  unfoldable pub find_membership_cached :
      Text → Text → CoreTenantGuard → Option Membership × CoreTenantGuard
  find_membership_cached user_id tenant_id g =
      if leb g.cache_ttl_ms 0
      then (members.find_one tenant_id user_id, g)
      else answer_membership user_id tenant_id
          (fresh_membership env.now (get g.membership_cache (membership_key user_id tenant_id))) g

  -- The tenants of the user's memberships at the least level or above.
  unfoldable pub tenant_ids_of : Text → Option Number → List Text
  tenant_ids_of user_id none = map (λ m. m.tenant) (members.find user_id)
  tenant_ids_of user_id (some min_level) =
      let hierarchy = get_role_hierarchy env.multi_tenancy in
      map (λ m. m.tenant)
        (filter (λ m. at_least (level_or_zero hierarchy m.role) min_level) (members.find user_id))

  unfoldable pub remember_ids : Text → List Text → CoreTenantGuard → CoreTenantGuard
  remember_ids key ids g =
      if ltb 0 g.cache_ttl_ms
      then record g {
        tenant_ids_cache =
            set (evict_if_over_capacity g.tenant_ids_cache) key
              (record { expires_at = env.later + g.cache_ttl_ms; ids = ids });
      }
      else g

  unfoldable pub answer_ids :
      Text → Option Number → Option CachedTenantIds → CoreTenantGuard → List Text × CoreTenantGuard
  answer_ids user_id min_level (some entry) g = (entry.ids, g)
  answer_ids user_id min_level none g =
      let ids = tenant_ids_of user_id min_level in
      (ids, remember_ids (tenant_ids_key user_id min_level) ids g)

  -- The lookup of resolveUserTenantIds, for a request that has no tenant ids yet.
  unfoldable pub lookup_ids : Text → Option Number → CoreTenantGuard → List Text × CoreTenantGuard
  lookup_ids user_id min_level g =
      answer_ids user_id min_level
        (if ltb 0 g.cache_ttl_ms
          then fresh_ids env.now (get g.tenant_ids_cache (tenant_ids_key user_id min_level))
          else none)
        g
