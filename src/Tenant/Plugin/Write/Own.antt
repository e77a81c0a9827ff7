-- ===== src/Tenant/Plugin/Write/Own.antt =====
-- Documents that are written within a tenant.
use nest_server.Prelude.{
  ◌≡◌, ◌≢◌, refl, Bool, true, false, ◌||◌, Option, some, List, [], ◌∷◌, map, arith, Text, text_eq,
  text_beq_iff, ◌==◌, beq_ne, if◌then◌else◌, all, is_empty, ◌⊎◌,
}
use nest_server.Tenant.Plugin.Filter.{
  Setting, ok, refused, foreign_create, Value, a_text, undefined, null, zero, object, is_falsy,
  assert_own_tenant, resolve_tenant_filter, resolve_single_tenant_id, filter_of_context,
}
use nest_server.Tenant.Plugin.Write.{
  Document, save, insert_doc, insert_docs, insert_many, stamp, insert_one, secure_op, bulk_write,
}

-- A tenant that an inserted document may name: none, or the caller's own.
unfoldable pub may_insert : Text → Value → Bool
may_insert own (a_text t) = is_empty t || t == own
may_insert own zero = true
may_insert own object = false
may_insert own undefined = true
may_insert own null = true

module _ {D : Type 0} where
  insert_doc-eq :
      (own : Text) (doc : Document D)
      → insert_doc own doc ≡ (
          if may_insert own doc.tenant_id
          then ok (stamp (some own) doc)
          else refused foreign_create)
  unfolding insert_doc stamp may_insert assert_own_tenant is_falsy
  insert_doc-eq own doc = go doc.tenant_id refl
    where
      go :
          (v : Value)
          → doc.tenant_id ≡ v
          → insert_doc own doc ≡ (
              if may_insert own doc.tenant_id
              then ok (stamp (some own) doc)
              else refused foreign_create)
      go undefined e = ground arith
      go null e = ground arith
      go zero e = ground arith
      go object e = ground arith
      go (a_text t) e = ground arith

  insert_docs-eq :
      (own : Text) (docs : List (Document D))
      → insert_docs own docs ≡ (
          if all (λ doc. may_insert own doc.tenant_id) docs
          then ok (map (stamp (some own)) docs)
          else refused foreign_create)
  unfolding insert_docs all
  insert_docs-eq own [] = refl
  insert_docs-eq own (doc ∷ docs) = ground (arith, insert_doc-eq own doc, insert_docs-eq own docs)

  -- Within a tenant, an insertion of many documents is refused as a creation in a foreign tenant as
  -- soon as one of them names a tenant that is not the caller's; otherwise each document is
  -- inserted with the caller's tenant where it named none, and unchanged where it named it.
  pub insert_many-eq :
      (setting : Setting) (model_name : Option Text) (own : Text) (docs : List (Document D))
      → resolve_single_tenant_id setting model_name ≡ some own
      → insert_many setting model_name docs ≡ (
          if all (λ doc. may_insert own doc.tenant_id) docs
          then ok (map (stamp (some own)) docs)
          else refused foreign_create)
  unfolding insert_many
  insert_many-eq setting model_name own docs within = ground (arith, insert_docs-eq own docs)

  -- Within a tenant, a document that passes the hook on saving names the caller's tenant, or it is
  -- an old document whose tenant is not set.
  pub save-own :
      (setting : Setting) (model_name : Option Text) (own : Text) (doc doc' : Document D)
      → resolve_single_tenant_id setting model_name ≡ some own
      → save setting model_name doc ≡ ok doc'
      → (doc'.tenant_id ≡ a_text own)
        ⊎ ((doc' ≡ doc) × (doc.is_new ≡ false) × (is_falsy doc.tenant_id ≡ true))
  unfolding save assert_own_tenant is_falsy
  save-own setting model_name own doc doc' within passed = go doc.tenant_id refl
    where
      go :
          (v : Value)
          → doc.tenant_id ≡ v
          → (doc'.tenant_id ≡ a_text own)
            ⊎ ((doc' ≡ doc) × (doc.is_new ≡ false) × (is_falsy doc.tenant_id ≡ true))
      go undefined e = ground arith
      go null e = ground arith
      go zero e = ground arith
      go object e = ground arith
      go (a_text t) e = ground (arith, text_beq_iff t own)

-- Within a tenant, a document that names a foreign tenant is refused by insertMany, while the same
-- document as an insertOne of bulkWrite passes unchanged.
pub bulk_write-insert_foreign :
    {G C D : Type 0} (setting : Setting) (model_name : Option Text) (own t : Text)
    (doc : Document D)
    → resolve_single_tenant_id setting model_name ≡ some own
    → doc.tenant_id ≡ a_text t
    → is_empty t ≡ false
    → t ≢ own
    → (insert_many setting model_name (doc ∷ []) ≡ refused foreign_create)
      × (bulk_write {G = G} {C = C} setting model_name (insert_one doc ∷ [])
          ≡ ok (insert_one doc ∷ []))
unfolding may_insert bulk_write secure_op stamp is_falsy all resolve_tenant_filter
    resolve_single_tenant_id filter_of_context
bulk_write-insert_foreign {G} {C} setting model_name own t doc within names some_text foreign = (
  ground (arith, insert_many-eq setting model_name own (doc ∷ []) within, beq_ne t own foreign),
  ground (arith, within),
)
