-- ===== src/Tenant/Boundary/Coherence.antt =====
-- The boot check of the role vocabulary, and the scopes of roles.
use nest_server.Prelude.{
  ◌≡◌, ◌≢◌, refl, true, false, not, ◌&&◌, ◌||◌, Option, none, some, List, [], ◌∷◌, ◌++◌, arith,
  Text, text_eq, text_beq_iff, any, includes, includes-append, includes-filter_empty, is_empty,
}
use nest_server.Role.{
  is_system_role, is_forbidden_membership_role, looks_like_system_role, is_global_only_role,
  global_only_roles,
}
use nest_server.Role.Laws.{looks_like-is_system_role, is_global_only_role-refused}
use nest_server.Tenant.Config.{MultiTenancy, hierarchy_of}
use nest_server.Tenant.Scope.{
  global, tenant, RoleScopeSource, scope_of, keys, collect, collect_from, collect_roles,
  config_source,
}
use nest_server.Tenant.Boundary.{assert_role_vocabulary_is_coherent}

collect_roles-includes :
    (collected roles : List Text) (r : Text)
    → includes (collect_roles collected roles) r
      ≡ includes collected r || (not (is_empty r) && includes roles r)
unfolding collect_roles includes
collect_roles-includes collected [] r = ground arith
collect_roles-includes collected (role ∷ roles) r = ground (
  arith,
  collect_roles-includes collected roles r,
  collect_roles-includes (collected ++ role ∷ []) roles r,
  text_beq_iff role r,
  includes-append collected (role ∷ []) r,
)

collect_from-includes :
    (pick : RoleScopeSource → List Text) (collected : List Text) (sources : List RoleScopeSource)
    (r : Text)
    → includes (collect_from pick collected sources) r
      ≡ includes collected r || (not (is_empty r) && any (λ s. includes (pick s) r) sources)
unfolding collect_from any
collect_from-includes pick collected [] r = ground arith
collect_from-includes pick collected (s ∷ sources) r = ground (
  arith,
  collect_from-includes pick (collect_roles collected (pick s)) sources r,
  collect_roles-includes collected (pick s) r,
)

-- A role is collected exactly if it is not empty and some source declares it.
collect-includes :
    (config : Option MultiTenancy) (sources : List RoleScopeSource)
    (pick : RoleScopeSource → List Text) (r : Text)
    → includes (collect config sources pick) r
      ≡ not (is_empty r) && any (λ s. includes (pick s) r) (config_source config ∷ sources)
unfolding collect includes
collect-includes config sources pick r =
    collect_from-includes pick [] (config_source config ∷ sources) r

includes-global_only : (r : Text) → includes global_only_roles r ≡ is_global_only_role r
unfolding is_global_only_role
includes-global_only r = refl

not_forbidden :
    (r : Text)
    → is_forbidden_membership_role r ≡ false
    → (is_system_role r ≡ false)
      × (looks_like_system_role r ≡ false)
      × (includes global_only_roles r ≡ false)
unfolding is_forbidden_membership_role
not_forbidden r h = (
  ground (arith, looks_like-is_system_role r),
  ground arith,
  ground (arith, includes-global_only r, is_global_only_role-refused r),
)

module _ (c : MultiTenancy) (coherent : assert_role_vocabulary_is_coherent (some c) ≡ none)
    (enabled : c.enabled ≡ true) (r : Text) where
  tenant_role-not_forbidden :
      includes (keys (hierarchy_of c) ++ c.additional_membership_roles) r ≡ true
      → is_forbidden_membership_role r ≡ false
  unfolding assert_role_vocabulary_is_coherent
  tenant_role-not_forbidden declared =
      includes-filter_empty is_forbidden_membership_role
        (keys (hierarchy_of c) ++ c.additional_membership_roles) r (ground arith) declared

  tenant_role-not_global :
      includes (keys (hierarchy_of c) ++ c.additional_membership_roles) r ≡ true
      → includes c.global_only_roles r ≡ false
  unfolding assert_role_vocabulary_is_coherent
  tenant_role-not_global declared =
      let hierarchy = keys (hierarchy_of c) in
      let additional = c.additional_membership_roles in
      ground (
        arith,
        includes-append hierarchy additional r,
        includes-filter_empty (λ role. includes hierarchy role || includes additional role)
            c.global_only_roles r,
      )

  global_role-not_system :
      includes c.global_only_roles r ≡ true
      → (is_system_role r ≡ false) × (looks_like_system_role r ≡ false)
  unfolding assert_role_vocabulary_is_coherent
  global_role-not_system declared =
      let plain =
        includes-filter_empty looks_like_system_role c.global_only_roles r (ground arith)
          declared in
      (ground (arith, looks_like-is_system_role r), plain)

-- With multi-tenancy enabled and a vocabulary that passes the boot check, every role that is not
-- empty and that the options declare as a tenant role (in the hierarchy or beside it) has tenant
-- scope, unless a further source declares it global.
pub coherent-tenant_scope :
    (c : MultiTenancy) (sources : List RoleScopeSource) (r : Text)
    → c.enabled ≡ true
    → assert_role_vocabulary_is_coherent (some c) ≡ none
    → r ≢ []
    → includes (keys (hierarchy_of c) ++ c.additional_membership_roles) r ≡ true
    → any (λ s. includes s.global_roles r) sources ≡ false
    → scope_of (some c) sources r ≡ tenant
unfolding scope_of config_source any
coherent-tenant_scope c sources r enabled coherent filled declared apart =
    let (not_system, not_like, not_only) =
      not_forbidden r (tenant_role-not_forbidden c coherent enabled r declared) in
    let not_global = tenant_role-not_global c coherent enabled r declared in
    ground (
      arith,
      collect-includes (some c) sources (λ s. s.global_roles) r,
      collect-includes (some c) sources (λ s. s.tenant_roles) r,
    )

-- With multi-tenancy enabled and a vocabulary that passes the boot check, every role that is not empty and that the options declare global has global
-- scope, whatever further sources declare.
pub coherent-global_scope :
    (c : MultiTenancy) (sources : List RoleScopeSource) (r : Text)
    → c.enabled ≡ true
    → assert_role_vocabulary_is_coherent (some c) ≡ none
    → r ≢ []
    → includes c.global_only_roles r ≡ true
    → scope_of (some c) sources r ≡ global
unfolding scope_of config_source any
coherent-global_scope c sources r enabled coherent filled declared =
    let (not_system, not_like) = global_role-not_system c coherent enabled r declared in
    ground (arith, collect-includes (some c) sources (λ s. s.global_roles) r)
