-- ===== src/Tenant/Plugin/Isolation.antt =====
-- The guard and the plugin together: what a request can read.
use mathlib.Core.Path.{subst}
use nest_server.Prelude.{
  ◌≡◌, refl, sym, ◌∙◌, ap, Bool, true, false, Option, none, some, List, [], ◌∷◌, arith, false≢true,
  Text, text_eq, text_beq_iff, ◌==◌, Bool-cases, Option-cases, includes, ◌⊎◌, inl, inr,
}
use nest_server.Tenant.Config.{MultiTenancy}
use nest_server.Tenant.Guard.State.{MemberModel, User, Request, Env, Context, World}
use nest_server.Tenant.Guard.Cache.Sound.{All, Answers, IsMember, IsSound}
use nest_server.Tenant.Guard.Activate.{can_activate, is_admin}
use nest_server.Tenant.Guard.Activate.Keeps.{IsEntitled, PlainId}
use nest_server.Tenant.Guard.Activate.Sound.{can_activate-IsEntitled}
use nest_server.Tenant.Plugin.Filter.{
  RequestContext, context_of, Result, Refusal, ok, refused, TenantFilter, everything, only, among,
  truthy, Value, a_text, is_excluded, should_bypass, filter_of_context, resolve_tenant_filter,
  resolve_single_tenant_id,
}
use nest_server.Tenant.Plugin.Write.{Conditions}
use nest_server.Tenant.Plugin.Read.{Query, query, narrowed}

-- What a filter asks of the tenant of a row.
abbrev pub Allows : TenantFilter → Value → Type 0
Allows everything v = Unit
Allows (only t) v = v ≡ a_text t
Allows (among ts) v = (t : Text) × (includes ts t ≡ true) × (v ≡ a_text t)

-- Mongoose and MongoDB: rows, the rows that conditions select, and `where`.
pub record Database (G C : Type 0) : Type 1 where
  pub Row : Type 0
  pub tenant_of : Row → Value
  pub selects : Conditions G C → Row → Bool
  pub narrow : Conditions G C → TenantFilter → Conditions G C
  -- `where` with a filter selects only rows that the filter allows
  pub narrow-selects :
      (q : Conditions G C) (f : TenantFilter) (row : Row)
      → selects (narrow q f) row ≡ true
      → Allows f (tenant_of row)

Result-cases :
    {A : Type 0} (r : Result A) → ((a : A) × (r ≡ ok a)) ⊎ ((e : Refusal) × (r ≡ refused e))
Result-cases (ok a) = inl (a, refl)
Result-cases (refused e) = inr (e, refl)

All-includes :
    (P : Text → Type 0) (ts : List Text) (t : Text) → All P ts → includes ts t ≡ true → P t
unfolding includes
All-includes P [] t h k = absurd (false≢true k)
All-includes P (s ∷ ts) t h k = elim (Bool-cases (s == t)) [
  | inl same ↦ subst P ((text_beq_iff s t).0 same) h.0
  | inr other ↦ All-includes P ts t h.1 (ground arith)
]

truthy-some : (o : Option Text) (t : Text) → truthy o ≡ some t → o ≡ some t
unfolding truthy
truthy-some none t h = h
truthy-some (some s) t h = ground arith

-- Where a filter comes from.
filter_of_context-cases :
    (c : RequestContext) (f : TenantFilter)
    → filter_of_context c ≡ ok f
    → ((t : Text) × (c.tenant_id ≡ some t) × (f ≡ only t))
      ⊎ (((ids : List Text) × (c.tenant_ids ≡ some ids) × (f ≡ among ids))
          ⊎ (c.is_admin_bypass ≡ true))
unfolding filter_of_context
filter_of_context-cases c f e = elim (Option-cases (truthy c.tenant_id)) [
  | inl no_tenant ↦ elim (Option-cases c.tenant_ids) [
    | inl no_list ↦ inr (inr (ground arith))
    | inr (ids, some_list) ↦ inr (inl (ids, some_list, ground arith))
  ]
  | inr (t, some_tenant) ↦ inl (t, truthy-some c.tenant_id t some_tenant, ground arith)
]

module _ (members : MemberModel) where
  -- The row belongs to a tenant that the user is a member of.
  abbrev pub IsOwn : Option User → Value → Type 0
  IsOwn user v =
      (u : User) × (t : Text) × (user ≡ some u) × (v ≡ a_text t) × IsMember members u.id t

  -- A filter of an entitled request allows rows of the user's tenants only.
  filter_of_context-IsOwn :
      (user : Option User) (bypass : Bool) (q : Request) (f : TenantFilter) (v : Value)
      → IsEntitled members user bypass q
      → filter_of_context (context_of q) ≡ ok f
      → Allows f v
      → (bypass ≡ true) ⊎ IsOwn user v
  unfolding context_of
  filter_of_context-IsOwn user bypass q f v entitled e allowed =
      elim (filter_of_context-cases (context_of q) f e) [
        | inl (t, from, same) ↦ elim (entitled.one_tenant t from) [
          | inl admin ↦ inl admin
          | inr (u, r, who, role, held) ↦
              let belongs : v ≡ a_text t = subst (λ g. Allows g v) same allowed in
              inr (
                u,
                t,
                who,
                belongs,
                record {
                  member = held.member;
                  attested = held.attested;
                  by_user = held.by_user;
                  in_tenant = held.in_tenant;
                },
              )
        ]
        | inr (inl (ids, from, same)) ↦
            let (t, listed, belongs) : Allows (among ids) v =
              subst (λ g. Allows g v) same allowed in
            let (u, who, mine) = entitled.all_tenants ids from in
            inr (u, t, who, belongs, All-includes (IsMember members u.id) ids t mine listed)
        | inr (inr admin) ↦ inl (entitled.by_admin admin)
      ]

  module _ {G C : Type 0} (db : Database G C) where
    -- A query that passes the hook asks for the filter of the context.
    query-narrowed :
        (config : MultiTenancy) (context : RequestContext) (model_name : Option Text)
        (q q' : Query G C)
        → config.enabled ≡ true
        → context.bypass_tenant_guard ≡ false
        → is_excluded config model_name ≡ false
        → query db.narrow
            (record { multi_tenancy = some config; context = some context })
            model_name
            q
          ≡ ok q'
        → (f : TenantFilter) × (filter_of_context context ≡ ok f)
          × (q'.conditions ≡ db.narrow q.conditions f)
    unfolding query narrowed resolve_tenant_filter resolve_single_tenant_id should_bypass
    query-narrowed config context model_name q q' enabled guarded included passed =
        elim (Result-cases (filter_of_context context)) [
          | inl (f, e) ↦ (f, e, ground arith)
          | inr (r, e) ↦ absurd (ground arith)
        ]

    -- For an enabled configuration, a model that is not excluded, sound caches and a user (if any)
    -- whose id has no colon, on a request that carried no tenant scope and with no bypass of the plugin: after
    -- the guard, whatever its outcome, a query that passes the hook of the
    -- plugin selects only rows of tenants that the user is a member of, unless the user has the
    -- bypass of administrators.
    pub query-isolates :
        (env : Env) (answers : Answers members) (config : MultiTenancy) (context : Context)
        (w : World) (model_name : Option Text) (q q' : Query G C) (row : db.Row)
        → env.multi_tenancy ≡ some config
        → config.enabled ≡ true
        → PlainId members w.request.user
        → IsSound members w.guard
        → w.request.tenant_id ≡ none
        → w.request.tenant_ids ≡ none
        → w.request.is_admin_bypass ≡ false
        → is_excluded config model_name ≡ false
        → query db.narrow
            (record {
              multi_tenancy = some config;
              context = some (context_of (can_activate members env context w).1.request);
            })
            model_name
            q
          ≡ ok q'
        → db.selects q'.conditions row ≡ true
        → (is_admin config w.request.user ≡ true) ⊎ IsOwn w.request.user (db.tenant_of row)
    unfolding context_of
    query-isolates env answers config context w model_name q q' row same enabled plain sound
          no_tenant no_list no_bypass included passed selected =
        let after = (can_activate members env context w).1.request in
        let (_, entitled) =
          can_activate-IsEntitled members env answers config context w same enabled plain sound
            no_tenant no_list no_bypass in
        let (f, from, narrowed_by) =
          query-narrowed config (context_of after) model_name q q' enabled refl included passed in
        let asked : db.selects (db.narrow q.conditions f) row ≡ true =
          sym (ap (λ c. db.selects c row) narrowed_by) ∙ selected in
        filter_of_context-IsOwn w.request.user (is_admin config w.request.user) after f
          (db.tenant_of row) entitled from (db.narrow-selects q.conditions f row asked)
