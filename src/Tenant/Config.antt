-- ===== src/Tenant/Config.antt =====
-- The `multiTenancy` options that the tenant code reads (ConfigService.configFastButReadOnly), with
-- the defaults that the code gives them, and the values of role levels.
use nest_server.Prelude.{
  ℕ, Bool, false, ◌||◌, Option, none, some, List, [], ◌∷◌, Text, text, text_eq, or_else, includes,
  is_some,
}
use nest_server.Prelude.Dict.{Dict, get}

-- A switch that is on unless it says `false`, as `enabled` and `adminBypass`, is a Boolean. Levels
-- of roles are natural numbers.
pub record MultiTenancy : Type 0 where
  pub enabled : Bool
  pub admin_bypass : Bool
  pub header_name : Option Text
  pub role_hierarchy : Option (Dict Text ℕ)
  pub global_only_roles : List Text
  pub additional_membership_roles : List Text
  pub strict_membership_roles : Bool
  pub cache_ttl_ms : Option ℕ
  pub exclude_schemas : List Text

-- DEFAULT_ROLE_HIERARCHY
abbrev pub default_role_hierarchy : Dict Text ℕ
default_role_hierarchy = (text "member", 1) ∷ (text "manager", 2) ∷ (text "owner", 3) ∷ []

-- The names that every object has from its prototype, which `in` finds too.
abbrev pub prototype_names : List Text
prototype_names =
    text "constructor"
    ∷ text "__defineGetter__"
    ∷ text "__defineSetter__"
    ∷ text "hasOwnProperty"
    ∷ text "__lookupGetter__"
    ∷ text "__lookupSetter__"
    ∷ text "isPrototypeOf"
    ∷ text "propertyIsEnumerable"
    ∷ text "toString"
    ∷ text "valueOf"
    ∷ text "__proto__"
    ∷ text "toLocaleString"
    ∷ []

-- A number of the runtime: `none` is NaN.
abbrev pub Number : Type 0
Number = Option ℕ

-- role in hierarchy
unfoldable pub in_hierarchy : Dict Text ℕ → Text → Bool
unfolding get includes
in_hierarchy hierarchy role = is_some (get hierarchy role) || includes prototype_names role

-- hierarchy[role] as a number, for a role in the hierarchy; what the prototype gives is NaN
unfoldable pub level : Dict Text ℕ → Text → Number
unfolding get
level hierarchy role = get hierarchy role

abbrev pub hierarchy_of : MultiTenancy → Dict Text ℕ
hierarchy_of config = or_else config.role_hierarchy default_role_hierarchy

-- isMultiTenancyActive: the options may be absent
unfoldable pub is_multi_tenancy_active : Option MultiTenancy → Bool
is_multi_tenancy_active none = false
is_multi_tenancy_active (some config) = config.enabled

-- getRoleHierarchy
unfoldable pub get_role_hierarchy : Option MultiTenancy → Dict Text ℕ
get_role_hierarchy none = default_role_hierarchy
get_role_hierarchy (some config) = hierarchy_of config
