-- ===== src/RolePlugin.antt =====
-- The Mongoose plugin that keeps users from giving themselves roles
-- (src/core/common/plugins/mongoose-role-guard.plugin.ts). A hook is a function of what it may change:
-- the document, the update, the documents or operations. `C` stands for the rest of an update. Updates
-- that are pipelines and paths such as `roles.0` are not modelled; the log lines are left out.
pub mod Guarded
mod Tests
use nest_server.Prelude.{
  ℕ, Bool, true, false, not, ◌&&◌, ◌||◌, Option, none, some, List, [], ◌∷◌, ◌++◌, map, Text, text,
  text_eq, ◌==◌, if◌then◌else◌, any, includes, is_empty, is_some,
}
use mathlib.Core.Option
use nest_server.Role.{admin}
use nest_server.Auth.User.{User, user_has_role}
use nest_server.Restricted.Validate.{holds_role}

-- `security.mongooseRoleGuardPlugin`
pub data PluginConfig : Type 0 where
  unset : PluginConfig
  switch : Bool → PluginConfig
  options : (allowed_roles : Option (List Text)) → PluginConfig

pub record Context : Type 0 where
  pub current_user : Option User
  pub is_bypass_role_guard : Bool
  pub config : PluginConfig

-- A value of `roles`: an array, a falsy value, or something else, with the roles that it stands for:
-- `{ $each }` in an update, a text in a document.
pub data RoleValue : Type 0 where
  role_array other : List Text → RoleValue
  falsy : RoleValue

-- The places of an update that may have a value for `roles`.
pub record Update (C : Type 0) : Type 0 where
  pub direct : Option RoleValue
  pub set : Option RoleValue
  pub push : Option RoleValue
  pub add_to_set : Option RoleValue
  pub pull : Option RoleValue
  pub set_on_insert : Option RoleValue
  pub rest : C

pub record Document : Type 0 where
  pub roles : Option RoleValue
  pub is_new : Bool
  pub is_modified : Bool

pub data Operation (C : Type 0) : Type 0 where
  insert_one : (document : Option Document) → Operation C
  update_one update_many : (update : Option (Update C)) → Operation C
  replace_one : (replacement : Option Document) → Operation C
  other_operation : Operation C

unfoldable pub allowed_by_config : PluginConfig → User → Bool
unfolding any includes holds_role
allowed_by_config unset user = false
allowed_by_config (switch b) user = false
allowed_by_config (options none) user = false
allowed_by_config (options (some allowed)) user = elim user.roles [
  | none ↦ false
  | some roles ↦ any (λ role. includes allowed role) roles
]

unfoldable pub is_role_change_allowed : Context → Bool
unfolding allowed_by_config user_has_role holds_role
is_role_change_allowed context = elim context.current_user [
  | none ↦ true
  | some user ↦
      context.is_bypass_role_guard
      || user_has_role user (admin ∷ [])
      || holds_role user.roles admin
      || allowed_by_config context.config user
]

unfoldable pub is_truthy : Option RoleValue → Bool
is_truthy none = false
is_truthy (some falsy) = false
is_truthy (some (role_array names)) = true
is_truthy (some (other names)) = true

-- `roles?.length > 0`
unfoldable pub has_length : Option RoleValue → Bool
has_length none = false
has_length (some falsy) = false
has_length (some (role_array names)) = not (is_empty names)
has_length (some (other names)) = not (is_empty names)

-- the document's roles, where there is a document
abbrev pub roles_of : Option Document → Option RoleValue
roles_of none = none
roles_of (some d) = d.roles

-- `delete` of a value that is truthy
unfoldable pub drop_truthy : Option RoleValue → Option RoleValue
drop_truthy none = none
drop_truthy (some falsy) = some falsy
drop_truthy (some (role_array names)) = none
drop_truthy (some (other names)) = none

-- `[]` in the place of a value that is truthy
unfoldable pub empty_truthy : Option RoleValue → Option RoleValue
empty_truthy none = none
empty_truthy (some falsy) = some falsy
empty_truthy (some (role_array names)) = some (role_array [])
empty_truthy (some (other names)) = some (role_array [])

unfoldable pub empty_document : Document → Document
unfolding empty_truthy
empty_document d = record d { roles = empty_truthy d.roles }

module _ {C : Type 0} where
  unfoldable pub has_roles : Update C → Bool
  unfolding is_truthy
  has_roles u =
      is_truthy u.direct
      || is_truthy u.set
      || is_truthy u.push
      || is_truthy u.add_to_set
      || is_truthy u.pull

  unfoldable pub has_roles_in_update : Option (Update C) → Bool
  unfolding has_roles
  has_roles_in_update none = false
  has_roles_in_update (some u) = has_roles u

  unfoldable pub strip : Update C → Update C
  unfolding drop_truthy
  strip u = record u {
    direct = none;
    set = drop_truthy u.set;
    push = drop_truthy u.push;
    add_to_set = drop_truthy u.add_to_set;
    pull = drop_truthy u.pull;
  }

  unfoldable pub has_role_change : Operation C → Bool
  unfolding has_length has_roles_in_update
  has_role_change (insert_one document) = has_length (roles_of document)
  has_role_change (update_one update) = has_roles_in_update update
  has_role_change (update_many update) = has_roles_in_update update
  has_role_change (replace_one replacement) = has_length (roles_of replacement)
  has_role_change other_operation = false

unfoldable pub drop_roles : Document → Document
unfolding drop_truthy
drop_roles d = record d { roles = drop_truthy d.roles }

module _ (context : Context) where
  -- pre save
  unfoldable pub save : Document → Document
  unfolding is_role_change_allowed
  save d =
      if not d.is_modified
      then d
      else if is_role_change_allowed context
      then d
      else if d.is_new
      then record d { roles = some (role_array []) }
      else record d { is_modified = false }

  unfoldable pub handle_update_role_guard : {C : Type 0} → Option (Update C) → Option (Update C)
  unfolding has_roles is_role_change_allowed strip
  handle_update_role_guard none = none
  handle_update_role_guard (some u) =
      if not (has_roles u)
      then some u
      else if is_role_change_allowed context
      then some u
      else some (strip u)

  -- pre insertMany; `none` where the argument is no array
  unfoldable pub insert_many : Option (List Document) → Option (List Document)
  unfolding any has_length is_role_change_allowed empty_document
  insert_many none = none
  insert_many (some docs) =
      if not (any (λ d. has_length d.roles) docs)
      then some docs
      else if is_role_change_allowed context
      then some docs
      else some (map empty_document docs)

  unfoldable pub guard_operation : {C : Type 0} → Operation C → Operation C
  unfolding handle_update_role_guard empty_document drop_roles
  guard_operation (insert_one document) = insert_one (Option.map empty_document document)
  guard_operation (update_one update) = update_one (handle_update_role_guard update)
  guard_operation (update_many update) = update_many (handle_update_role_guard update)
  guard_operation (replace_one replacement) = replace_one (Option.map drop_roles replacement)
  guard_operation other_operation = other_operation

  -- pre bulkWrite
  unfoldable pub bulk_write : {C : Type 0} → List (Operation C) → List (Operation C)
  unfolding any has_role_change is_role_change_allowed guard_operation
  bulk_write ops =
      if not (any has_role_change ops)
      then ops
      else if is_role_change_allowed context
      then ops
      else map guard_operation ops
