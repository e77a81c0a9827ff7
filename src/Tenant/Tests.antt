-- ===== src/Tenant/Tests.antt =====
-- The theorems on multi-tenancy at concrete inputs: one user with one membership.
mod Access
mod Plugin
mod Members
use nest_server.Tenant.Guard.Resolve.{resolve_tenant_context}
use nest_server.Tenant.Guard.Resolve.Sound.{carrying, resolve_tenant_context-IsEntitled}
use nest_server.Prelude.Dict.{set, delete, get}
use nest_server.Tenant.Guard.Activate.{
  raise_forbidden, enter_with_roles, find_membership, header_present, by_header, is_seen,
  observe_config, user_has, non_empty, parse_header, system_check_roles, decide, activate,
  can_activate, is_admin,
}
use nest_server.Tenant.Guard.Cache.{
  evict_if_over_capacity, remember_membership, answer_membership, find_membership_cached,
  lookup_ids, apply_invalidation, of_user, tenant_ids_of, membership_key, fresh_membership,
}
use nest_server.Role.{is_system_role, s_no_one}
use nest_server.Prelude.{
  trim, trim_end, trim_start, starts_with, filter, includes, text, text_beq, ◌≡◌, refl, Bool, true,
  false, ◌&&◌, Option, none, some, List, [], ◌∷◌, arith, sym, Bool-cases, inl, inr, Text, text_eq,
  text_beq_iff, ◌==◌, if◌then◌else◌, is_space,
}
use nest_server.Tenant.Config.{MultiTenancy}
use nest_server.Tenant.Hierarchy.{merge_roles_metadata}
use nest_server.Tenant.Guard.State.{
  Membership, MemberModel, User, Request, Context, Env, CoreTenantGuard, World, absent, forbidden,
  access_denied, not_a_member, insufficient_tenant_role,
}
use nest_server.Tenant.Guard.Cache.Keys.{NoColon}
use nest_server.Tenant.Guard.Cache.Sound.{Answers, IsSound}
use nest_server.Tenant.Guard.Cache.Invalidate.{
  lookups-after_invalidation, find_membership_cached-revoked, lookups-IsBounded, IsBounded,
}
use nest_server.Tenant.Guard.Activate.Keeps.{IsEntitled}
use nest_server.Tenant.Guard.Activate.Sound.{can_activate-IsEntitled}
use nest_server.Tenant.Guard.Activate.Denial.{is_ok, can_activate-refused, can_activate-no_one}

abbrev ann : Text
ann = b'a' ∷ []

abbrev acme : Text
acme = b't' ∷ []

abbrev editor : Text
editor = b'e' ∷ []

abbrev membership : Membership
membership = record { user = ann; tenant = acme; role = editor }

abbrev members : MemberModel
members = record {
  Attested = λ m. m ≡ membership;
  find_one = λ tenant user. if tenant == acme && user == ann then some membership else none;
  find = λ user. if user == ann then membership ∷ [] else [];
}

members-Answers : Answers members
members-Answers = record {
  one = λ tenant user m found. ground (arith, text_beq_iff tenant acme, text_beq_iff user ann);
  many = λ user. elim (Bool-cases (user == ann)) [
    | inl same ↦ rw same ((refl, sym ((text_beq_iff user ann).0 same)), tt)
    | inr other ↦ rw other tt
  ];
}

abbrev config : MultiTenancy
config = record {
  enabled = true;
  admin_bypass = true;
  header_name = none;
  role_hierarchy = none;
  global_only_roles = [];
  additional_membership_roles = editor ∷ [];
  strict_membership_roles = false;
  cache_ttl_ms = some 1000;
  exclude_schemas = [];
}

abbrev env : Env
env = record {
  multi_tenancy = some config;
  config_ref = 1;
  better_auth = absent;
  sources = [];
  is_test_env = false;
  now = 10;
  later = 11;
}

abbrev guard : CoreTenantGuard
guard = record {
  membership_cache = [];
  tenant_ids_cache = [];
  cache_ttl_ms = 1000;
  last_seen_config = some 1;
}

abbrev user : User
user = record {
  id = ann;
  roles = none;
  verified = false;
  verified_at = false;
  email_verified = false;
}

abbrev request : Request
request = record {
  user = some user;
  header = some acme;
  tenant_id = none;
  tenant_role = none;
  is_admin_bypass = false;
  tenant_ids = none;
}

abbrev world : World
world = record { guard = guard; request = request }

abbrev requiring : Text → Context
requiring role = record {
  has_request = true;
  handler_roles = some (role ∷ []);
  class_roles = none;
  skip_tenant_check = false;
  is_better_auth = false;
}

guard-IsSound : IsSound members guard
guard-IsSound = record { memberships = tt; tenant_ids = tt }

ann-NoColon : NoColon ann
ann-NoColon = (λ e. absurd (omega arith), tt)

can_activate-IsEntitled_example :
    IsSound members (can_activate members env (requiring editor) world).1.guard
    × IsEntitled members
        (some user)
        (is_admin config (some user))
        (can_activate members env (requiring editor) world).1.request
can_activate-IsEntitled_example =
    can_activate-IsEntitled members env members-Answers config (requiring editor) world refl refl
      ann-NoColon guard-IsSound refl refl refl

-- Another tenant's header is refused.
abbrev stranger : World
stranger = record world { request = record request { header = some (b'x' ∷ []) } }

can_activate-refused_example :
    (can_activate members env (requiring editor) stranger).1.request ≡ stranger.request
unfolding text text_beq includes filter starts_with is_space trim_start trim_end trim is_system_role
    merge_roles_metadata get can_activate activate decide system_check_roles parse_header non_empty
    user_has is_admin observe_config is_seen by_header header_present find_membership
    find_membership_cached answer_membership remember_membership fresh_membership membership_key
    evict_if_over_capacity enter_with_roles raise_forbidden delete
can_activate-refused_example = can_activate-refused members env (requiring editor) stranger refl

lookups-after_invalidation_example :
    ((find_membership_cached members env ann acme (apply_invalidation (of_user (some ann)) guard)).0
      ≡ some membership)
    × ((lookup_ids members env ann none (apply_invalidation (of_user (some ann)) guard)).0
        ≡ tenant_ids_of members env ann none)
unfolding text_beq
lookups-after_invalidation_example =
    lookups-after_invalidation members env b'a' [] acme none guard ann-NoColon

-- A copy of a membership that the collection does not hold, and that expired.
abbrev stale_guard : CoreTenantGuard
stale_guard = record guard {
  membership_cache =
      set [] (membership_key ann editor) (record { expires_at = 5; result = some membership });
}

find_membership_cached-revoked_example :
    ((find_membership_cached members env ann editor stale_guard).0 ≡ none)
    × (get
          (find_membership_cached members env ann editor stale_guard).1.membership_cache
          (membership_key ann editor)
        ≡ none)
unfolding fresh_membership get set text_beq membership_key
find_membership_cached-revoked_example =
    find_membership_cached-revoked members env ann editor stale_guard refl refl (omega arith)

lookups-IsBounded_example :
    IsBounded (find_membership_cached members env ann acme guard).1
    × IsBounded (lookup_ids members env ann none guard).1
lookups-IsBounded_example =
    lookups-IsBounded members env ann acme none guard (omega arith, omega arith)

resolve_tenant_context-IsEntitled_example :
    IsSound members (resolve_tenant_context members env (some user) (some acme) guard).1
    × IsEntitled members
        (some user)
        (is_admin config (some user))
        (carrying (some user) (resolve_tenant_context members env (some user) (some acme) guard).0)
resolve_tenant_context-IsEntitled_example =
    resolve_tenant_context-IsEntitled members env members-Answers config (some user) (some acme)
      guard refl refl ann-NoColon guard-IsSound
