-- ===== src/Tenant/Tests/Plugin.antt =====
-- The theorems on the plugin at concrete inputs.
use Filter.{assert_own_tenant, resolve_single_tenant_id, should_bypass}
use nest_server.Tenant.Plugin.Write.{
  Update, Document, insert_one, save, insert_many, bulk_write, stamp,
}
use nest_server.Tenant.Plugin.Read.Own.{IsHarmless, query-IsHarmless}
use nest_server.Tenant.Boundary.{
  resolve_global_and_tenant_roles, resolve_from, tenant_satisfiable_roles, is_global,
}
use nest_server.Tenant.Scope.{
  scope_of, is_tenant_role, collect, collect_from, collect_roles, config_source, is_global_scope,
  is_tenant_scope, keys,
}
use nest_server.Role.{is_global_only_role, looks_like_system_role, is_system_role}
use nest_server.Prelude.{
  to_lower_case, lower_unit, any, trim, trim_end, trim_start, is_space, starts_with, filter,
  text_beq_iff, ◌≡◌, refl, ap, Bool, true, false, ◌&&◌, Option, none, some, List, [], ◌∷◌, arith,
  Text, text_eq, ◌⊎◌, includes, text_beq, text, if◌then◌else◌, all, map, ◌==◌,
}
use nest_server.Tenant.Hierarchy.{
  check_role_access, available_roles, min_level, level_match, at_least, min_of,
  merge_roles_metadata,
}
use nest_server.Tenant.Config.{in_hierarchy, level, get_role_hierarchy, is_multi_tenancy_active}
use nest_server.Tenant.Guard.Activate.{
  member_satisfies, set_tenant, enter_with_roles, find_membership, header_present, by_header,
  is_seen, observe_config, user_has, non_empty, parse_header, system_check_roles, decide, activate,
  can_activate, is_admin,
}
use nest_server.Tenant.Plugin.Filter.{
  filter_of_context, truthy, is_excluded, Setting, Result, RequestContext, context_of, TenantFilter,
  everything, only, among, Value, undefined, null, zero, object, a_text, foreign_create,
  resolve_tenant_filter, is_falsy,
}
use nest_server.Tenant.Plugin.Read.{check_candidate, check_update, narrowed, Query, query}
use nest_server.Prelude.Dict.{delete, get, set}
use nest_server.Tenant.Guard.Cache.{
  evict_if_over_capacity, membership_key, fresh_membership, remember_membership, answer_membership,
  find_membership_cached,
}
use nest_server.Tenant.Plugin.Aggregate.{
  find_filter, prepend, secure_pipeline, Model, Pipeline, stage, done, match_tenant, lookup, absent,
  aggregate, filter_for_collection, has_write_stage, present,
}
use nest_server.Tenant.Plugin.Filter
use nest_server.Tenant.Plugin.Write.Own.{
  insert_many-eq, save-own, bulk_write-insert_foreign, may_insert,
}
use nest_server.Tenant.Plugin.Aggregate.Guarded.{PipelineIsGuarded, aggregate-IsGuarded}
use nest_server.Tenant.Plugin.Isolation.{Database, Allows, IsOwn, query-isolates}
use nest_server.Tenant.Tests.{
  acme, editor, members, members-Answers, config, env, guard-IsSound, ann-NoColon, user, world,
  requiring,
}

abbrev invoices : Option Text
invoices = some (b'i' ∷ [])

abbrev foreign : Text
foreign = b'x' ∷ []

abbrev in_acme : Setting
in_acme = record {
  multi_tenancy = some config;
  context = some (record {
    tenant_id = some acme;
    tenant_ids = none;
    is_admin_bypass = false;
    bypass_tenant_guard = false;
  });
}

abbrev doc : Value → Document Text
doc tenant_id = record { is_new = true; tenant_id = tenant_id; fields = [] }

insert_many-eq_example : insert_many in_acme invoices (doc undefined ∷ doc (a_text acme) ∷ []) ≡ (
    if all (λ d. may_insert acme d.tenant_id) (doc undefined ∷ doc (a_text acme) ∷ [])
    then Filter.ok (map (stamp (some acme)) (doc undefined ∷ doc (a_text acme) ∷ []))
    else Filter.refused foreign_create)
unfolding resolve_single_tenant_id should_bypass includes
insert_many-eq_example =
    insert_many-eq in_acme invoices acme (doc undefined ∷ doc (a_text acme) ∷ []) refl

save-own_example :
    (a_text acme ≡ a_text acme)
    ⊎ ((doc (a_text acme) ≡ doc undefined) × (true ≡ false) × (is_falsy undefined ≡ true))
unfolding resolve_single_tenant_id should_bypass includes save is_falsy
save-own_example = save-own in_acme invoices acme (doc undefined) (doc (a_text acme)) refl refl

bulk_write-insert_foreign_example :
    (insert_many in_acme invoices (doc (a_text foreign) ∷ []) ≡ Filter.refused foreign_create)
    × (bulk_write {G = Unit} {C = Unit} in_acme invoices (insert_one (doc (a_text foreign)) ∷ [])
        ≡ Filter.ok (insert_one (doc (a_text foreign)) ∷ []))
unfolding resolve_single_tenant_id should_bypass includes
bulk_write-insert_foreign_example =
    bulk_write-insert_foreign in_acme invoices acme foreign (doc (a_text foreign)) refl refl refl
      (ground arith)

-- A join with a collection that belongs to tenants.
abbrev models : List Model
models = record { name = b'c' ∷ []; collection = b'k' ∷ []; has_tenant_id = true } ∷ []

abbrev joining : Pipeline Unit Unit
joining = stage (lookup (some (b'k' ∷ [])) absent) done

abbrev joined : Pipeline Unit Unit
joined =
    stage (match_tenant (only acme))
      (stage (lookup (some (b'k' ∷ [])) (present (stage (match_tenant (only acme)) done))) done)

aggregate-IsGuarded_example :
    (has_write_stage joining ≡ false)
    × ((rest : Pipeline Unit Unit) × (joined ≡ stage (match_tenant (only acme)) rest)
        × PipelineIsGuarded (filter_for_collection in_acme models) rest)
unfolding resolve_tenant_filter should_bypass includes aggregate has_write_stage secure_pipeline
    filter_for_collection find_filter text_beq prepend
aggregate-IsGuarded_example =
    aggregate-IsGuarded in_acme models invoices (only acme) joining joined refl refl

-- A database whose rows are their tenants, and whose conditions are a list of filters.
abbrev selects_value : TenantFilter → Value → Bool
selects_value everything v = true
selects_value (only t) (a_text s) = s == t
selects_value (among ts) (a_text s) = includes ts s
selects_value f v = false

selects_value-Allows : (f : TenantFilter) (v : Value) → selects_value f v ≡ true → Allows f v
selects_value-Allows everything v h = tt
selects_value-Allows (only t) undefined h = cc
selects_value-Allows (only t) null h = cc
selects_value-Allows (only t) zero h = cc
selects_value-Allows (only t) object h = cc
selects_value-Allows (only t) (a_text s) h = ap a_text ((text_beq_iff s t).0 h)
selects_value-Allows (among ts) undefined h = absurd (cc)
selects_value-Allows (among ts) null h = absurd (cc)
selects_value-Allows (among ts) zero h = absurd (cc)
selects_value-Allows (among ts) object h = absurd (cc)
selects_value-Allows (among ts) (a_text s) h = (s, h, refl)

abbrev selects_all : List TenantFilter → Value → Bool
selects_all [] v = true
selects_all (f ∷ fs) v = selects_value f v && selects_all fs v

selects_all-first :
    (f : TenantFilter) (fs : List TenantFilter) (v : Value)
    → selects_all (f ∷ fs) v ≡ true
    → selects_value f v ≡ true
selects_all-first f fs v h = ground arith

abbrev database : Database Unit (List TenantFilter)
database = record {
  Row = Value;
  tenant_of = λ v. v;
  selects = λ q v. selects_all q.others v;
  narrow = λ q f. record q { others = f ∷ q.others };
  narrow-selects = λ q f v h. selects_value-Allows f v (selects_all-first f q.others v h);
}

abbrev all_rows : Query Unit (List TenantFilter)
all_rows = record { conditions = record { tenant_id = none; others = [] }; update = none }

abbrev rows_of_acme : Query Unit (List TenantFilter)
rows_of_acme = record {
  conditions = record { tenant_id = none; others = only acme ∷ [] };
  update = none;
}

query-isolates_example :
    (is_admin config (some user) ≡ true) ⊎ IsOwn members (some user) (a_text acme)
unfolding text text_beq includes filter starts_with is_space trim_start trim_end trim is_system_role
    merge_roles_metadata get can_activate activate decide system_check_roles parse_header non_empty
    user_has is_admin observe_config is_seen by_header header_present find_membership
    find_membership_cached answer_membership remember_membership fresh_membership membership_key
    evict_if_over_capacity enter_with_roles delete set set_tenant query narrowed check_update
    check_candidate resolve_tenant_filter resolve_single_tenant_id should_bypass is_excluded truthy
    filter_of_context context_of member_satisfies resolve_global_and_tenant_roles resolve_from
    tenant_satisfiable_roles is_global scope_of is_tenant_role collect collect_from collect_roles
    config_source is_global_only_role looks_like_system_role to_lower_case lower_unit any
    check_role_access available_roles in_hierarchy level get_role_hierarchy is_multi_tenancy_active
    min_level level_match at_least min_of is_global_scope is_tenant_scope keys
query-isolates_example =
    query-isolates members database env members-Answers config (requiring editor) world invoices
      all_rows rows_of_acme (a_text acme) refl refl ann-NoColon guard-IsSound refl refl refl refl
      refl refl

abbrev update : Update
update = record {
  tenant_id = undefined;
  set_tenant_id = a_text acme;
  set_on_insert_tenant_id = undefined;
}

query-IsHarmless_example :
    IsHarmless acme undefined × IsHarmless acme (a_text acme) × IsHarmless acme undefined
unfolding resolve_single_tenant_id should_bypass includes query resolve_tenant_filter
    assert_own_tenant text_beq
query-IsHarmless_example =
    query-IsHarmless database.narrow in_acme invoices acme
      (record all_rows { update = some update }) (record rows_of_acme { update = some update })
      update refl refl refl
