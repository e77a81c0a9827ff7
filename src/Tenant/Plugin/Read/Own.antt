-- ===== src/Tenant/Plugin/Read/Own.antt =====
-- What an update within a tenant writes.
use nest_server.Prelude.{
  ◌≡◌, refl, Option, some, Text, text_eq, text_beq_iff, ◌⊎◌, inl, inr, arith, ap,
}
use nest_server.Tenant.Plugin.Filter.{
  Setting, ok, TenantFilter, Value, undefined, null, zero, object, a_text, assert_own_tenant,
  resolve_single_tenant_id,
}
use nest_server.Tenant.Plugin.Write.{Conditions, Update}
use nest_server.Tenant.Plugin.Read.{Query, query, check_update, check_candidate}

-- The value is missing, or the tenant itself.
abbrev pub IsHarmless : Text → Value → Type 0
IsHarmless own v = (v ≡ undefined) ⊎ ((v ≡ null) ⊎ (v ≡ a_text own))

check_candidate-IsHarmless :
    (own : Text) (v : Value) → check_candidate own v ≡ ok tt → IsHarmless own v
unfolding check_candidate assert_own_tenant
check_candidate-IsHarmless own undefined h = inl refl
check_candidate-IsHarmless own null h = inr (inl refl)
check_candidate-IsHarmless own zero h = absurd (ground arith)
check_candidate-IsHarmless own object h = absurd (ground arith)
check_candidate-IsHarmless own (a_text t) h =
    let same : t ≡ own = ground (arith, text_beq_iff t own) in inr (inr (ap a_text same))

-- Within a tenant, an update that passes the query hook writes to `tenantId`, whether directly, under
-- $set or under $setOnInsert, nothing but the caller's tenant or a missing value.
pub query-IsHarmless :
    {G C : Type 0} (narrow : Conditions G C → TenantFilter → Conditions G C) (setting : Setting)
    (model_name : Option Text) (own : Text) (q q' : Query G C) (u : Update)
    → resolve_single_tenant_id setting model_name ≡ some own
    → query narrow setting model_name q ≡ ok q'
    → q.update ≡ some u
    → IsHarmless own u.tenant_id
      × IsHarmless own u.set_tenant_id
      × IsHarmless own u.set_on_insert_tenant_id
unfolding query check_update
query-IsHarmless narrow setting model_name own q q' u within passed writes = (
  check_candidate-IsHarmless own u.tenant_id (ground arith),
  check_candidate-IsHarmless own u.set_tenant_id (ground arith),
  check_candidate-IsHarmless own u.set_on_insert_tenant_id (ground arith),
)
