-- ===== src/Tenant/Guard/State.antt =====
-- What CoreTenantGuard reads and writes: the request, the caches, and the outcome of a check.
-- A check is an action on both; what it wrote before an exception stays written.
use nest_server.Prelude.{ℕ, Bool, Option, List, Text}
use nest_server.Prelude.Dict.{Dict}
use nest_server.Tenant.Config.{MultiTenancy}
use nest_server.Tenant.Scope.{RoleScopeSource}

-- The fields of CoreTenantMemberModel that the guard reads from an active membership.
pub record Membership : Type 0 where
  pub user : Text
  pub tenant : Text
  pub role : Text

-- The Mongoose model of memberships: its queries for active ones, and what they may answer. A
-- membership is attested if the collection has held it as active.
pub record MemberModel : Type 1 where
  pub Attested : Membership → Type 0
  -- findOne({ status: ACTIVE, tenant, user })
  pub find_one : (tenant user : Text) → Option Membership
  -- find({ status: ACTIVE, user })
  pub find : (user : Text) → List Membership

pub record User : Type 0 where
  pub id : Text
  pub roles : Option (List Text)
  pub verified : Bool
  pub verified_at : Bool
  pub email_verified : Bool

-- The request; `header` is the raw tenant header if it is a text.
pub record Request : Type 0 where
  pub user : Option User
  pub header : Option Text
  pub tenant_id : Option Text
  pub tenant_role : Option Text
  pub is_admin_bypass : Bool
  pub tenant_ids : Option (List Text)

-- The execution context: the metadata of the handler and of its class, whether there is a request,
-- and whether the class is the BetterAuth controller or resolver or one derived from it.
pub record Context : Type 0 where
  pub has_request : Bool
  pub handler_roles : Option (List Text)
  pub class_roles : Option (List Text)
  pub skip_tenant_check : Bool
  pub is_better_auth : Bool

-- The option `betterAuth`: absent, a Boolean, or an object that may set `skipTenantCheck`.
pub data BetterAuthOption : Type 0 where
  absent : BetterAuthOption
  switch : Bool → BetterAuthOption
  options : (skip_tenant_check : Option Bool) → BetterAuthOption

-- The surroundings of one call. `config_ref` tells one options object from another; the clock is
-- read up to twice.
pub record Env : Type 0 where
  pub multi_tenancy : Option MultiTenancy
  pub config_ref : ℕ
  pub better_auth : BetterAuthOption
  pub sources : List RoleScopeSource
  pub is_test_env : Bool
  pub now : ℕ
  pub later : ℕ

pub record CachedMembership : Type 0 where
  pub expires_at : ℕ
  pub result : Option Membership

pub record CachedTenantIds : Type 0 where
  pub expires_at : ℕ
  pub ids : List Text

pub record CoreTenantGuard : Type 0 where
  pub membership_cache : Dict Text CachedMembership
  pub tenant_ids_cache : Dict Text CachedTenantIds
  pub cache_ttl_ms : ℕ
  pub last_seen_config : Option ℕ

pub data Reason : Type 0 where
  access_denied verification_required not_a_member insufficient_tenant_role : Reason
  insufficient_role : Reason

pub data Outcome {ℓ} (A : Type ℓ) : Type ℓ where
  ok : A → Outcome A
  unauthorized : Outcome A
  forbidden : Reason → Outcome A

pub record World : Type 0 where
  pub guard : CoreTenantGuard
  pub request : Request

abbrev pub Action : Type 0 → Type 0
Action A = World → Outcome A × World

abbrev pub pure : {A : Type 0} → A → Action A
pure a w = (ok a, w)

abbrev pub continue : {A B : Type 0} → Outcome A → (A → Action B) → Action B
continue (ok a) f w = f a w
continue unauthorized f w = (unauthorized, w)
continue (forbidden r) f w = (forbidden r, w)

infixl 5 ◌>>=◌ ◌>>◌
abbrev pub ◌>>=◌ : {A B : Type 0} → Action A → (A → Action B) → Action B
◌>>=◌ m f w = let (r, w') = m w in continue r f w'

abbrev pub ◌>>◌ : {A B : Type 0} → Action A → Action B → Action B
m >> n = m >>= λ _. n
