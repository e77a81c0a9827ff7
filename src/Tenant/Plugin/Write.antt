-- ===== src/Tenant/Plugin/Write.antt =====
-- The plugin's hooks on writes of documents: save, insertMany, bulkWrite.
pub mod Own
use nest_server.Prelude.{
  ◌≡◌, Bool, true, false, not, ◌||◌, ◌&&◌, Option, none, some, List, [], ◌∷◌, map, Text,
  if◌then◌else◌,
}
use nest_server.Tenant.Plugin.Filter.{
  Setting, Result, ok, refused, ◌>>=◌, TenantFilter, everything, only, among, Value, a_text,
  undefined, is_falsy, assert_own_tenant, resolve_tenant_filter, resolve_single_tenant_id,
}

-- A document: its tenant, and fields of which the plugin knows nothing.
pub record Document (D : Type 0) : Type 0 where
  pub is_new : Bool
  pub tenant_id : Value
  pub fields : D

module _ {D : Type 0} where
  -- The hook on `save`.
  unfoldable pub save : Setting → Option Text → Document D → Result (Document D)
  save setting model_name doc = elim (resolve_single_tenant_id setting model_name) [
    | none ↦ ok doc
    | some own ↦
        if doc.is_new && is_falsy doc.tenant_id
        then ok (record doc { tenant_id = a_text own })
        else assert_own_tenant doc.tenant_id own doc.is_new >>= λ _. ok doc
  ]

  -- One document of insertMany.
  unfoldable pub insert_doc : Text → Document D → Result (Document D)
  insert_doc own doc =
      if is_falsy doc.tenant_id
      then ok (record doc { tenant_id = a_text own })
      else assert_own_tenant doc.tenant_id own true >>= λ _. ok doc

  unfoldable pub insert_docs : Text → List (Document D) → Result (List (Document D))
  insert_docs own [] = ok []
  insert_docs own (doc ∷ docs) =
      let rest = insert_docs own docs in
      insert_doc own doc >>= λ doc'. rest >>= λ docs'. ok (doc' ∷ docs')

  -- The hook on `insertMany`, for an array of documents.
  unfoldable pub insert_many :
      Setting → Option Text → List (Document D) → Result (List (Document D))
  insert_many setting model_name docs = elim (resolve_single_tenant_id setting model_name) [
    | none ↦ ok docs
    | some own ↦ insert_docs own docs
  ]

module _ {D : Type 0} where
  -- `tenantId && !document.tenantId`
  unfoldable pub stamp : Option Text → Document D → Document D
  stamp none doc = doc
  stamp (some own) doc =
      if is_falsy doc.tenant_id then record doc { tenant_id = a_text own } else doc

-- The filter object of a query: what it says of `tenantId`, by the plugin or by the caller, and its
-- other conditions.
pub data Clause (G : Type 0) : Type 0 where
  equals : Text → Clause G
  is_in : List Text → Clause G
  given : G → Clause G

pub record Conditions (G C : Type 0) : Type 0 where
  pub tenant_id : Option (Clause G)
  pub others : C

-- { ...conditions, ...filter }
unfoldable pub spread : {G C : Type 0} → Conditions G C → TenantFilter → Conditions G C
spread q everything = q
spread q (only t) = record q { tenant_id = some (equals t) }
spread q (among ts) = record q { tenant_id = some (is_in ts) }

-- What an update writes to `tenantId`: directly, under $set and under $setOnInsert.
pub record Update : Type 0 where
  pub tenant_id : Value
  pub set_tenant_id : Value
  pub set_on_insert_tenant_id : Value

pub data BulkOp (G C D : Type 0) : Type 0 where
  insert_one : Document D → BulkOp G C D
  update_one update_many : Conditions G C → Update → BulkOp G C D
  replace_one : Conditions G C → Document D → BulkOp G C D
  delete_one delete_many : Conditions G C → BulkOp G C D

module _ {G C D : Type 0} where
  unfoldable pub secure_op : TenantFilter → Option Text → BulkOp G C D → BulkOp G C D
  unfolding stamp spread
  secure_op filter own (insert_one doc) = insert_one (stamp own doc)
  secure_op filter own (update_one q u) = update_one (spread q filter) u
  secure_op filter own (update_many q u) = update_many (spread q filter) u
  secure_op filter own (replace_one q doc) = replace_one (spread q filter) doc
  secure_op filter own (delete_one q) = delete_one (spread q filter)
  secure_op filter own (delete_many q) = delete_many (spread q filter)

  -- The hook on `bulkWrite`.
  unfoldable pub bulk_write :
      Setting → Option Text → List (BulkOp G C D) → Result (List (BulkOp G C D))
  unfolding secure_op
  bulk_write setting model_name ops = resolve_tenant_filter setting model_name >>= λ found.
      elim found [
        | none ↦ ok ops
        | some filter ↦
            ok (map (secure_op filter (resolve_single_tenant_id setting model_name)) ops)
      ]
