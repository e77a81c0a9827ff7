-- ===== src/Tenant/Plugin/Filter.antt =====
-- The plugin's decisions: shouldBypass, resolveTenantFilter, resolveSingleTenantId, assertOwnTenant.
use nest_server.Prelude.{
  Bool, true, false, not, ◌||◌, Option, none, some, List, Text, text_eq, ◌==◌, if◌then◌else◌,
  includes, is_empty,
}
use nest_server.Tenant.Config.{MultiTenancy}
use nest_server.Tenant.Guard.State.{Request}

-- The fields of the RequestContext that the plugin reads.
pub record RequestContext : Type 0 where
  pub tenant_id : Option Text
  pub tenant_ids : Option (List Text)
  pub is_admin_bypass : Bool
  pub bypass_tenant_guard : Bool

-- The getters of RequestContextMiddleware read the request that the guard has written.
unfoldable pub context_of : Request → RequestContext
context_of q = record {
  tenant_id = q.tenant_id;
  tenant_ids = q.tenant_ids;
  is_admin_bypass = q.is_admin_bypass;
  bypass_tenant_guard = false;
}

-- What a hook reads from its surroundings.
pub record Setting : Type 0 where
  pub multi_tenancy : Option MultiTenancy
  pub context : Option RequestContext

pub data Refusal : Type 0 where
  context_required foreign_create foreign_move not_countable write_stage : Refusal

pub data Result (A : Type 0) : Type 0 where
  ok : A → Result A
  refused : Refusal → Result A

infixl 5 ◌>>=◌
abbrev pub ◌>>=◌ : {A B : Type 0} → Result A → (A → Result B) → Result B
◌>>=◌ (ok a) f = f a
◌>>=◌ (refused r) f = refused r

-- The filter object: {}, { tenantId }, or { tenantId: { $in } }
pub data TenantFilter : Type 0 where
  everything : TenantFilter
  only : Text → TenantFilter
  among : List Text → TenantFilter

-- A text that counts as true.
unfoldable pub truthy : Option Text → Option Text
truthy none = none
truthy (some t) = if is_empty t then none else some t

-- `modelName && excludeSchemas?.includes(modelName)`
unfoldable pub is_excluded : MultiTenancy → Option Text → Bool
unfolding truthy
is_excluded config model_name = elim (truthy model_name) [
  | none ↦ false
  | some name ↦ includes config.exclude_schemas name
]

unfoldable pub should_bypass : Setting → Option Text → Bool
unfolding is_excluded
should_bypass setting model_name = elim setting.multi_tenancy [
  | none ↦ true
  | some config ↦ if not config.enabled then true else elim setting.context [
    | none ↦ true
    | some context ↦ context.bypass_tenant_guard || is_excluded config model_name
  ]
]

-- The filter of a context: the validated tenant, else the list of tenants, else the bypass.
unfoldable pub filter_of_context : RequestContext → Result TenantFilter
filter_of_context context = elim (truthy context.tenant_id) [
  | some t ↦ ok (only t)
  | none ↦ elim context.tenant_ids [
    | some ids ↦ ok (among ids)
    | none ↦ if context.is_admin_bypass then ok everything else refused context_required
  ]
]

unfoldable pub resolve_tenant_filter : Setting → Option Text → Result (Option TenantFilter)
unfolding filter_of_context
resolve_tenant_filter setting model_name =
    if should_bypass setting model_name then ok none else elim setting.context [
      | none ↦ refused context_required
      | some context ↦ filter_of_context context >>= λ f. ok (some f)
    ]

unfoldable pub resolve_single_tenant_id : Setting → Option Text → Option Text
resolve_single_tenant_id setting model_name =
    if should_bypass setting model_name
    then none
    else elim setting.context [ none ↦ none | some context ↦ truthy context.tenant_id ]

-- The value of a `tenantId`; `zero` is 0 or false, an object any other value that is no text.
pub data Value : Type 0 where
  undefined null zero object : Value
  a_text : Text → Value

-- `!value`
unfoldable pub is_falsy : Value → Bool
is_falsy undefined = true
is_falsy null = true
is_falsy zero = true
is_falsy object = false
is_falsy (a_text t) = is_empty t

unfoldable pub assert_own_tenant : Value → (own_tenant_id : Text) → (is_new : Bool) → Result Unit
assert_own_tenant undefined own is_new = ok tt
assert_own_tenant null own is_new = ok tt
assert_own_tenant zero own is_new = refused (if is_new then foreign_create else foreign_move)
assert_own_tenant object own is_new = refused (if is_new then foreign_create else foreign_move)
assert_own_tenant (a_text t) own is_new =
    if t == own then ok tt else refused (if is_new then foreign_create else foreign_move)
