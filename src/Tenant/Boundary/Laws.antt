-- ===== src/Tenant/Boundary/Laws.antt =====
-- The split of required roles, what a membership may satisfy, and what a coherent vocabulary gives.
use mathlib.Core.List.{append-nil, append_assoc}
use nest_server.Prelude.{
  ◌≡◌, sym, not, ◌&&◌, ◌||◌, Option, List, [], ◌∷◌, ◌++◌, arith, Text, text_eq, filter, includes,
  includes-filter,
}
use nest_server.Tenant.Config.{MultiTenancy}
use nest_server.Tenant.Scope.{RoleScopeSource, is_tenant_role}
use nest_server.Tenant.Boundary.{
  GlobalAndTenant, resolve_from, resolve_global_and_tenant_roles, is_global,
  tenant_satisfiable_roles, is_strict,
}

module _ (config : Option MultiTenancy) (sources : List RoleScopeSource) where
  resolve_from-global :
      (found : GlobalAndTenant) (required : List Text)
      → (resolve_from config sources found required).global
        ≡ found.global ++ filter (is_global config sources) required
  unfolding resolve_from filter
  resolve_from-global found [] = sym (append-nil _)
  resolve_from-global found (role ∷ required) = ground (
    arith,
    resolve_from-global (record found { global = found.global ++ role ∷ [] }) required,
    resolve_from-global (record found { tenant = found.tenant ++ role ∷ [] }) required,
    append_assoc found.global (role ∷ []) (filter (is_global config sources) required),
  )

  resolve_from-tenant :
      (found : GlobalAndTenant) (required : List Text)
      → (resolve_from config sources found required).tenant
        ≡ found.tenant ++ filter (λ r. not (is_global config sources r)) required
  unfolding resolve_from filter
  resolve_from-tenant found [] = sym (append-nil _)
  resolve_from-tenant found (role ∷ required) = ground (
    arith,
    resolve_from-tenant (record found { global = found.global ++ role ∷ [] }) required,
    resolve_from-tenant (record found { tenant = found.tenant ++ role ∷ [] }) required,
    append_assoc found.tenant (role ∷ []) (filter (λ r. not (is_global config sources r)) required),
  )

  -- The split keeps each required role, in its order, on exactly one side: the global side has those
  -- of global scope or that only the platform may grant.
  pub resolve_global_and_tenant_roles-filter :
      (required : List Text)
      → ((resolve_global_and_tenant_roles config sources required).global
          ≡ filter (is_global config sources) required)
        × ((resolve_global_and_tenant_roles config sources required).tenant
            ≡ filter (λ r. not (is_global config sources r)) required)
  unfolding resolve_global_and_tenant_roles
  resolve_global_and_tenant_roles-filter required =
      (resolve_from-global _ required, resolve_from-tenant _ required)

  -- A membership can satisfy exactly the required roles that are not global and, under strict
  -- membership roles, that are declared as tenant roles.
  pub tenant_satisfiable_roles-includes :
      (required : List Text) (r : Text)
      → includes (tenant_satisfiable_roles config sources required) r
        ≡ includes required r
          && not (is_global config sources r)
          && (not (is_strict config) || is_tenant_role config sources r)
  unfolding tenant_satisfiable_roles
  tenant_satisfiable_roles-includes required r =
      let candidates = (resolve_global_and_tenant_roles-filter required).1 in
      ground (
        arith,
        candidates,
        includes-filter (λ r. not (is_global config sources r)) required r,
        includes-filter (is_tenant_role config sources)
            (resolve_global_and_tenant_roles config sources required).tenant r,
      )
