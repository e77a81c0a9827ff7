-- ===== src/Tenant/Plugin/Aggregate/Guarded.antt =====
-- What an aggregation that passes the hook reads.
use mathlib.Core.Path.{subst}
use nest_server.Prelude.{
  ◌≡◌, refl, sym, ◌∙◌, false, Option, none, some, List, Text, arith, Bool-cases, inl, inr,
}
use nest_server.Tenant.Plugin.Filter.{
  Setting, Result, ok, refused, ◌>>=◌, TenantFilter, everything, only, among, resolve_tenant_filter,
}
use nest_server.Tenant.Plugin.Write.{Conditions, spread, equals, is_in}
use nest_server.Tenant.Plugin.Aggregate.{
  Stage, Inner, Pipeline, Branches, match_tenant, lookup, union_with_name, union_with, graph_lookup,
  facet, out, merge, other, absent, present, done, stage, no_more, branch, prepend, union_by_name,
  restrict, secure_stage, secure_inner, secure_pipeline, secure_branches, filter_for_collection,
  aggregate, Model, has_write_stage,
}

-- What holds of a result, if there is one.
abbrev pub Holds : {A : Type 0} → (A → Type 0) → Result A → Type 0
Holds P (ok a) = P a
Holds P (refused r) = Unit

Holds-bind :
    {A B : Type 0} (Q : A → Type 0) (P : B → Type 0) (m : Result A) (f : A → Result B)
    → Holds Q m
    → ((a : A) → m ≡ ok a → Q a → Holds P (f a))
    → Holds P (m >>= f)
Holds-bind Q P (ok a) f h step = step a refl h
Holds-bind Q P (refused r) f h step = tt

Holds-any : {A : Type 0} (m : Result A) → Holds (λ _. Unit) m
Holds-any (ok a) = tt
Holds-any (refused r) = tt

module _ {G C : Type 0} where
  -- The pipeline of a join begins with the filter, where there is one.
  abbrev pub Opens : Option TenantFilter → Inner G C → Type 0
  Opens none p = Unit
  Opens (some f) p = (rest : Pipeline G C) × (p ≡ present (stage (match_tenant f) rest))

  -- The conditions of a recursive search ask for the filter, where there is one.
  abbrev pub Restricts : Option TenantFilter → Conditions G C → Type 0
  Restricts none q = Unit
  Restricts (some everything) q = Unit
  Restricts (some (only t)) q = q.tenant_id ≡ some (equals t)
  Restricts (some (among ts)) q = q.tenant_id ≡ some (is_in ts)

  Opens-prepend : (f : Option TenantFilter) (p : Inner G C) → Opens f (prepend f p)
  unfolding prepend
  Opens-prepend none p = tt
  Opens-prepend (some f) absent = (done, refl)
  Opens-prepend (some f) (present p) = (p, refl)

  Restricts-restrict : (f : Option TenantFilter) (q : Conditions G C) → Restricts f (restrict f q)
  unfolding restrict spread
  Restricts-restrict none q = tt
  Restricts-restrict (some everything) q = tt
  Restricts-restrict (some (only t)) q = refl
  Restricts-restrict (some (among ts)) q = refl

  module _ (filter_for : Option Text → Result (Option TenantFilter)) where
    -- Every stage, at any depth, reads another collection through that collection's filter.
    unfoldable mutual
      pub IsGuarded : Stage G C → Type 0
      IsGuarded (lookup from p) =
          (f : Option TenantFilter) × (filter_for from ≡ ok f) × Opens f p × InnerIsGuarded p
      IsGuarded (union_with_name name) = filter_for (some name) ≡ ok none
      IsGuarded (union_with coll p) =
          (f : Option TenantFilter) × (filter_for coll ≡ ok f) × Opens f p × InnerIsGuarded p
      IsGuarded (graph_lookup from q) =
          (f : Option TenantFilter) × (filter_for from ≡ ok f) × Restricts f q
      IsGuarded (facet bs) = BranchesIsGuarded bs
      IsGuarded (match_tenant f) = Unit
      IsGuarded out = Unit
      IsGuarded merge = Unit
      IsGuarded other = Unit

      pub InnerIsGuarded : Inner G C → Type 0
      InnerIsGuarded absent = Unit
      InnerIsGuarded (present p) = PipelineIsGuarded p

      pub PipelineIsGuarded : Pipeline G C → Type 0
      PipelineIsGuarded done = Unit
      PipelineIsGuarded (stage s p) = IsGuarded s × PipelineIsGuarded p

      pub BranchesIsGuarded : Branches G C → Type 0
      BranchesIsGuarded no_more = Unit
      BranchesIsGuarded (branch p bs) = PipelineIsGuarded p × BranchesIsGuarded bs

    prepend-InnerIsGuarded :
        (f : Option TenantFilter) (p : Inner G C) → InnerIsGuarded p → InnerIsGuarded (prepend f p)
    unfolding prepend IsGuarded
    prepend-InnerIsGuarded none p h = h
    prepend-InnerIsGuarded (some f) absent h = (tt, tt)
    prepend-InnerIsGuarded (some f) (present p) h = (tt, h)

    union_by_name-IsGuarded :
        (name : Text) (f : Option TenantFilter) (s : Stage G C)
        → s ≡ union_by_name name f
        → filter_for (some name) ≡ ok f
        → IsGuarded s
    unfolding union_by_name IsGuarded
    union_by_name-IsGuarded name none s made e = subst IsGuarded (sym made) e
    union_by_name-IsGuarded name (some f) s made e =
        subst IsGuarded (sym made) (some f, e, (done, refl), (tt, tt))

    mutual
      unfolding secure_stage IsGuarded

      secure_stage-IsGuarded : (s : Stage G C) → Holds IsGuarded (secure_stage filter_for s)
      secure_stage-IsGuarded (lookup from p) =
          Holds-bind (λ _. Unit) IsGuarded (filter_for from) _ (Holds-any _)
            λ f e _.
              Holds-bind InnerIsGuarded IsGuarded (secure_inner filter_for p) _
                (secure_inner-IsGuarded p)
                λ p' _ h. (f, e, Opens-prepend f p', prepend-InnerIsGuarded f p' h)
      secure_stage-IsGuarded (union_with_name name) =
          Holds-bind (λ _. Unit) IsGuarded (filter_for (some name)) _ (Holds-any _)
            λ f e _. union_by_name-IsGuarded name f (union_by_name name f) refl e
      secure_stage-IsGuarded (union_with coll p) =
          Holds-bind (λ _. Unit) IsGuarded (filter_for coll) _ (Holds-any _)
            λ f e _.
              Holds-bind InnerIsGuarded IsGuarded (secure_inner filter_for p) _
                (secure_inner-IsGuarded p)
                λ p' _ h. (f, e, Opens-prepend f p', prepend-InnerIsGuarded f p' h)
      secure_stage-IsGuarded (graph_lookup from q) =
          Holds-bind (λ _. Unit) IsGuarded (filter_for from) _ (Holds-any _)
            λ f e _. (f, e, Restricts-restrict f q)
      secure_stage-IsGuarded (facet bs) =
          Holds-bind BranchesIsGuarded IsGuarded (secure_branches filter_for bs) _
            (secure_branches-IsGuarded bs) λ bs' _ h. h
      secure_stage-IsGuarded (match_tenant f) = tt
      secure_stage-IsGuarded out = tt
      secure_stage-IsGuarded merge = tt
      secure_stage-IsGuarded other = tt

      secure_inner-IsGuarded : (p : Inner G C) → Holds InnerIsGuarded (secure_inner filter_for p)
      secure_inner-IsGuarded absent = tt
      secure_inner-IsGuarded (present p) =
          Holds-bind PipelineIsGuarded InnerIsGuarded (secure_pipeline filter_for p) _
            (secure_pipeline-IsGuarded p) λ p' _ h. h

      secure_pipeline-IsGuarded :
          (p : Pipeline G C) → Holds PipelineIsGuarded (secure_pipeline filter_for p)
      secure_pipeline-IsGuarded done = tt
      secure_pipeline-IsGuarded (stage s p) =
          Holds-bind IsGuarded PipelineIsGuarded (secure_stage filter_for s) _
            (secure_stage-IsGuarded s)
            λ s' _ h.
              Holds-bind PipelineIsGuarded PipelineIsGuarded (secure_pipeline filter_for p) _
                (secure_pipeline-IsGuarded p) λ p' _ k. (h, k)

      secure_branches-IsGuarded :
          (bs : Branches G C) → Holds BranchesIsGuarded (secure_branches filter_for bs)
      secure_branches-IsGuarded no_more = tt
      secure_branches-IsGuarded (branch p bs) =
          Holds-bind PipelineIsGuarded BranchesIsGuarded (secure_pipeline filter_for p) _
            (secure_pipeline-IsGuarded p)
            λ p' _ h.
              Holds-bind BranchesIsGuarded BranchesIsGuarded (secure_branches filter_for bs) _
                (secure_branches-IsGuarded bs) λ bs' _ k. (h, k)

  -- An aggregation on a model with a filter, if it passes the hook, has no stage that writes and
  -- becomes one that first matches the filter. In it, at any depth, a join or a union with another
  -- collection begins with that collection's filter, and a recursive search is restricted by it.
  pub aggregate-IsGuarded :
      (setting : Setting) (models : List Model) (model_name : Option Text) (f : TenantFilter)
      (p p' : Pipeline G C)
      → resolve_tenant_filter setting model_name ≡ ok (some f)
      → aggregate setting models model_name p ≡ ok p'
      → (has_write_stage p ≡ false)
        × ((rest : Pipeline G C) × (p' ≡ stage (match_tenant f) rest)
            × PipelineIsGuarded (filter_for_collection setting models) rest)
  unfolding aggregate secure_stage
  aggregate-IsGuarded setting models model_name f p p' filtered passed =
      elim (Bool-cases (has_write_stage p)) [
        | inl writes ↦ absurd (ground arith)
        | inr plain ↦ (
          plain,
          subst (Holds Matches) (sym (the_rest plain) ∙ passed) (
              Holds-bind (PipelineIsGuarded filter_for) Matches (secure_pipeline filter_for p) _
                (secure_pipeline-IsGuarded filter_for p) λ rest _ h. (rest, refl, h)),
        )
      ]
    where
      filter_for : Option Text → Result (Option TenantFilter)
      filter_for = filter_for_collection setting models

      Matches : Pipeline G C → Type 0
      Matches q =
          (rest : Pipeline G C) × (q ≡ stage (match_tenant f) rest)
          × PipelineIsGuarded (filter_for_collection setting models) rest

      the_rest :
          has_write_stage p ≡ false
          → aggregate setting models model_name p ≡ (
              secure_pipeline (filter_for_collection setting models) p >>= λ rest.
              ok (stage (match_tenant f) rest))
      the_rest plain = ground arith
