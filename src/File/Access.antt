-- ===== src/File/Access.antt =====
-- The four project classes of file access as one decision (src/core/modules/file/file-access.helper.ts).
-- Ids are texts, as the decision compares `String(id)`; an absent or empty id is falsy.
pub mod Laws
use nest_server.Prelude.{
  Bool, true, false, ◌&&◌, ◌||◌, Option, none, some, List, [], ◌∷◌, Text, text_eq, ◌==◌,
  if◌then◌else◌, includes, is_empty, text,
}
use nest_server.Role.{admin}

pub data FileAccessPreset : Type 0 where
  authenticated custom owner public tenant : FileAccessPreset

-- What a project wrote into `file.access`: nothing, a preset, or some other text.
pub data Configured : Type 0 where
  absent unknown_preset : Configured
  preset : FileAccessPreset → Configured

pub data CheckInputType : Type 0 where
  file filename files filter_args id : CheckInputType

-- `currentUser`: `hasRole` answers by the user's stored roles.
pub record FileUser : Type 0 where
  pub user_id : Option Text
  pub roles : List Text

-- The stored document: `raw.metadata.ownerId` and `raw.metadata.tenantId`.
pub record RawFile : Type 0 where
  pub owner_id : Option Text
  pub tenant_id : Option Text

-- `!!x` at an optional text
abbrev pub truthy : Option Text → Bool
truthy none = false
truthy (some []) = false
truthy (some (c ∷ s)) = true

unfoldable pub resolve_file_access_preset : Configured → FileAccessPreset
resolve_file_access_preset absent = custom
resolve_file_access_preset (preset p) = p
resolve_file_access_preset unknown_preset = owner

unfoldable pub file_access_needs_raw_document : FileAccessPreset → Option CheckInputType → Bool
file_access_needs_raw_document owner (some id) = true
file_access_needs_raw_document owner (some filename) = true
file_access_needs_raw_document tenant (some id) = true
file_access_needs_raw_document tenant (some filename) = true
file_access_needs_raw_document _ _ = false

unfoldable pub is_admin : Option FileUser → Bool
unfolding includes
is_admin none = false
is_admin (some u) = includes u.roles admin

abbrev id_of : Option FileUser → Option Text
id_of none = none
id_of (some u) = u.user_id

-- `String(x)`: an absent value prints as "undefined".
abbrev printed : Option Text → Text
printed none = text "undefined"
printed (some t) = t

abbrev owner_of : Option RawFile → Option Text
owner_of none = none
owner_of (some r) = r.owner_id

abbrev tenant_of : Option RawFile → Option Text
tenant_of none = none
tenant_of (some r) = r.tenant_id

-- The two data-driven presets, after the blanket answers.
unfoldable pub decide_by_document :
    FileAccessPreset → Option FileUser → Option RawFile → Option Text → Bool
decide_by_document owner user raw tenant_id =
    truthy (owner_of raw) && printed (owner_of raw) == printed (id_of user)
decide_by_document _ user raw tenant_id =
    truthy tenant_id && truthy (tenant_of raw) && printed (tenant_of raw) == printed tenant_id

unfoldable pub decide_by_input :
    FileAccessPreset → Option CheckInputType → Option FileUser → Option RawFile → Option Text → Bool
unfolding decide_by_document
decide_by_input p (some file) user raw tenant_id = true
decide_by_input p (some files) user raw tenant_id = true
decide_by_input p (some filter_args) user raw tenant_id = false
decide_by_input p _ user raw tenant_id = decide_by_document p user raw tenant_id

unfoldable pub decide_file_access :
    FileAccessPreset
    → Bool
    → Option CheckInputType
    → Option FileUser
    → Option RawFile
    → Option Text
    → Bool
unfolding decide_by_input is_admin
decide_file_access p true input user raw tenant_id = true
decide_file_access custom false input user raw tenant_id = true
decide_file_access public false input user raw tenant_id = true
decide_file_access authenticated false input user raw tenant_id = truthy (id_of user)
decide_file_access p false input user raw tenant_id =
    if is_admin user then true else decide_by_input p input user raw tenant_id
