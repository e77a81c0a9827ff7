-- ===== src/Tenant/Plugin/Read.antt =====
-- The plugin's hooks on queries, updates included, and on estimatedDocumentCount.
pub mod Own
use nest_server.Prelude.{false, not, ◌&&◌, Option, none, some, Text, if◌then◌else◌, is_some}
use nest_server.Tenant.Plugin.Filter.{
  Setting, Result, ok, refused, ◌>>=◌, not_countable, TenantFilter, Value, undefined, truthy,
  assert_own_tenant, should_bypass, resolve_tenant_filter, resolve_single_tenant_id,
}
use nest_server.Tenant.Plugin.Write.{Conditions, Update}

pub record Query (G C : Type 0) : Type 0 where
  pub conditions : Conditions G C
  pub update : Option Update

-- `candidate !== undefined` before assertOwnTenant, which accepts undefined as well
unfoldable pub check_candidate : Text → Value → Result Unit
check_candidate own undefined = ok tt
check_candidate own value = assert_own_tenant value own false

unfoldable pub check_update : Text → Option Update → Result Unit
unfolding check_candidate
check_update own none = ok tt
check_update own (some u) = check_candidate own u.tenant_id >>= λ _.
    check_candidate own u.set_tenant_id >>= λ _. check_candidate own u.set_on_insert_tenant_id

-- `where` is Mongoose's, which narrows the conditions of a query by an object.
module _ {G C : Type 0} (narrow : Conditions G C → TenantFilter → Conditions G C) where
  unfoldable pub narrowed : Option TenantFilter → Query G C → Query G C
  narrowed none q = q
  narrowed (some f) q = record q { conditions = narrow q.conditions f }

  -- The hook on the twelve kinds of queries.
  unfoldable pub query : Setting → Option Text → Query G C → Result (Query G C)
  unfolding narrowed check_update
  query setting model_name q = resolve_tenant_filter setting model_name >>= λ found.
      elim (resolve_single_tenant_id setting model_name) [
        | none ↦ ok (narrowed found q)
        | some own ↦ check_update own q.update >>= λ _. ok (narrowed found q)
      ]

unfoldable pub estimated_document_count : Setting → Option Text → Result Unit
estimated_document_count setting model_name =
    if should_bypass setting model_name then ok tt else elim setting.context [
      | none ↦ refused not_countable
      | some context ↦
          if context.is_admin_bypass && not (is_some (truthy context.tenant_id))
          then ok tt
          else refused not_countable
    ]
