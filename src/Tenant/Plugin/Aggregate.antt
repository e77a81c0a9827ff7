-- ===== src/Tenant/Plugin/Aggregate.antt =====
-- The plugin's hook on aggregations: no stage that writes, a $match first, and the filter in every
-- stage that reads another collection that belongs to tenants.
pub mod Guarded
use nest_server.Prelude.{
  Bool, true, false, not, ◌||◌, Option, none, some, List, [], ◌∷◌, Text, text_eq, ◌==◌,
  if◌then◌else◌,
}
use nest_server.Tenant.Plugin.Filter.{
  Setting, Result, ok, refused, ◌>>=◌, write_stage, TenantFilter, everything, truthy,
  resolve_tenant_filter,
}
use nest_server.Tenant.Plugin.Write.{Conditions, spread}

-- A stage has one operator. A collection is given by a text, or by something else (`none`).
mutual
  pub data Stage (G C : Type 0) : Type 0 where
    match_tenant : TenantFilter → Stage G C
    lookup : (from : Option Text) → Inner G C → Stage G C
    union_with_name : Text → Stage G C
    union_with : (coll : Option Text) → Inner G C → Stage G C
    graph_lookup : (from : Option Text) → Conditions G C → Stage G C
    facet : Branches G C → Stage G C
    out merge other : Stage G C

  -- the pipeline of a join, which may be absent
  pub data Inner (G C : Type 0) : Type 0 where
    absent : Inner G C
    present : Pipeline G C → Inner G C

  pub data Pipeline (G C : Type 0) : Type 0 where
    done : Pipeline G C
    stage : Stage G C → Pipeline G C → Pipeline G C

  pub data Branches (G C : Type 0) : Type 0 where
    no_more : Branches G C
    branch : Pipeline G C → Branches G C → Branches G C

-- A Mongoose model of the connection: its name, its collection, and whether its schema declares
-- `tenantId`.
pub record Model : Type 0 where
  pub name : Text
  pub collection : Text
  pub has_tenant_id : Bool

-- `filter && Object.keys(filter).length ? filter : undefined`
unfoldable pub constraining : Option TenantFilter → Option TenantFilter
constraining none = none
constraining (some everything) = none
constraining (some f) = some f

-- The loop of filterForCollection over the models of the connection.
unfoldable pub find_filter : Setting → List Model → Text → Result (Option TenantFilter)
unfolding constraining
find_filter setting [] collection = ok none
find_filter setting (m ∷ models) collection =
    let rest = find_filter setting models collection in
    if m.collection == collection
    then (if not m.has_tenant_id
        then ok none
        else resolve_tenant_filter setting (some m.name) >>= λ f. ok (constraining f))
    else rest

unfoldable pub filter_for_collection :
    Setting → List Model → Option Text → Result (Option TenantFilter)
filter_for_collection setting models collection = elim (truthy collection) [
  | none ↦ ok none
  | some name ↦ find_filter setting models name
]

module _ {G C : Type 0} where
  -- [{ $match: filter }, ...(pipeline ?? [])], or the pipeline as it is without a filter
  unfoldable pub prepend : Option TenantFilter → Inner G C → Inner G C
  prepend none p = p
  prepend (some f) absent = present (stage (match_tenant f) done)
  prepend (some f) (present p) = present (stage (match_tenant f) p)

  -- `$unionWith` by name alone takes a pipeline only if there is a filter.
  unfoldable pub union_by_name : Text → Option TenantFilter → Stage G C
  union_by_name name none = union_with_name name
  union_by_name name (some f) = union_with (some name) (present (stage (match_tenant f) done))

  unfoldable pub restrict : Option TenantFilter → Conditions G C → Conditions G C
  restrict none q = q
  restrict (some f) q = spread q f

  module _ (filter_for : Option Text → Result (Option TenantFilter)) where
    -- secureCrossCollectionStages; the $match that is put first needs nothing itself.
    unfoldable mutual
      pub secure_stage : Stage G C → Result (Stage G C)
      secure_stage (lookup from p) =
          filter_for from >>= λ f. secure_inner p >>= λ p'. ok (lookup from (prepend f p'))
      secure_stage (union_with_name name) =
          filter_for (some name) >>= λ f. ok (union_by_name name f)
      secure_stage (union_with coll p) =
          filter_for coll >>= λ f. secure_inner p >>= λ p'. ok (union_with coll (prepend f p'))
      secure_stage (graph_lookup from q) =
          filter_for from >>= λ f. ok (graph_lookup from (restrict f q))
      secure_stage (facet bs) = secure_branches bs >>= λ bs'. ok (facet bs')
      secure_stage (match_tenant f) = ok (match_tenant f)
      secure_stage out = ok out
      secure_stage merge = ok merge
      secure_stage other = ok other

      pub secure_inner : Inner G C → Result (Inner G C)
      secure_inner absent = ok absent
      secure_inner (present p) = secure_pipeline p >>= λ p'. ok (present p')

      pub secure_pipeline : Pipeline G C → Result (Pipeline G C)
      secure_pipeline done = ok done
      secure_pipeline (stage s p) =
          secure_stage s >>= λ s'. secure_pipeline p >>= λ p'. ok (stage s' p')

      pub secure_branches : Branches G C → Result (Branches G C)
      secure_branches no_more = ok no_more
      secure_branches (branch p bs) =
          secure_pipeline p >>= λ p'. secure_branches bs >>= λ bs'. ok (branch p' bs')

  unfoldable pub is_write_stage : Stage G C → Bool
  is_write_stage out = true
  is_write_stage merge = true
  is_write_stage s = false

  unfoldable pub has_write_stage : Pipeline G C → Bool
  unfolding is_write_stage
  has_write_stage done = false
  has_write_stage (stage s p) = is_write_stage s || has_write_stage p

  -- The hook on `aggregate`.
  unfoldable pub aggregate :
      Setting → List Model → Option Text → Pipeline G C → Result (Pipeline G C)
  aggregate setting models model_name p = resolve_tenant_filter setting model_name >>= λ found.
      elim found [
        | none ↦ ok p
        | some f ↦
            if has_write_stage p
            then refused write_stage
            else secure_pipeline (filter_for_collection setting models) (stage (match_tenant f) p)
      ]
