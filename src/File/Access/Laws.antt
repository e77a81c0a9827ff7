-- ===== src/File/Access/Laws.antt =====
-- What the file presets grant to whom.
use nest_server.Prelude.{
  ℕ, ◌≡◌, ◌≢◌, ◌↔◌, ◌⊎◌, refl, Bool, true, false, Option, none, some, ◌∷◌, arith, Text, text_eq,
  text_beq_iff, text,
}
use nest_server.File.Access.{
  FileAccessPreset, owner, tenant, CheckInputType, filename, filter_args, id, FileUser, RawFile,
  unknown_preset, resolve_file_access_preset, file_access_needs_raw_document, is_admin,
  decide_file_access, printed,
}

abbrev IsRead : CheckInputType → Type 0
IsRead t = (t ≡ id) ⊎ (t ≡ filename)

-- Under the owner preset, without force, a user with an id who is no admin reads a single file
-- exactly if the stored document names that id as the owner.
pub decide_file_access-owner_iff :
    (t : CheckInputType) (u : FileUser) (c : ℕ) (uid : Text) (raw : RawFile)
    (tenant_id : Option Text)
    → IsRead t
    → u.user_id ≡ some (c ∷ uid)
    → is_admin (some u) ≡ false
    → (decide_file_access owner false (some t) (some u) (some raw) tenant_id ≡ true)
      ↔ (raw.owner_id ≡ some (c ∷ uid))
unfolding decide_file_access
decide_file_access-owner_iff t u c uid raw tenant_id read e plain =
    ground (arith, text_beq_iff (printed raw.owner_id) (c ∷ uid))

-- Under the tenant preset, without force, a caller who is no admin reads a single file exactly if
-- the request has a tenant that is not empty and the stored document names the same one.
pub decide_file_access-tenant_iff :
    (t : CheckInputType) (user : Option FileUser) (raw : RawFile) (c : ℕ) (tid : Text)
    → IsRead t
    → is_admin user ≡ false
    → (decide_file_access tenant false (some t) user (some raw) (some (c ∷ tid)) ≡ true)
      ↔ (raw.tenant_id ≡ some (c ∷ tid))
unfolding decide_file_access
decide_file_access-tenant_iff t user raw c tid read plain =
    ground (arith, text_beq_iff (printed raw.tenant_id) (c ∷ tid))

abbrev IsDataDriven : FileAccessPreset → Type 0
IsDataDriven p = (p ≡ owner) ⊎ (p ≡ tenant)

-- Without force, the data-driven presets refuse a caller who is no admin every listing, and every
-- read of a file that is not stored; under the tenant preset also every read without a tenant.
pub decide_file_access-refuses :
    (p : FileAccessPreset) (user : Option FileUser) (raw : Option RawFile) (tenant_id : Option Text)
    (t : CheckInputType)
    → IsDataDriven p
    → is_admin user ≡ false
    → IsRead t
    → (decide_file_access p false (some filter_args) user raw tenant_id ≡ false)
      × (decide_file_access p false (some t) user none tenant_id ≡ false)
      × (decide_file_access tenant false (some t) user raw none ≡ false)
unfolding decide_file_access
decide_file_access-refuses p user raw tenant_id t driven plain read =
    (ground arith, ground arith, ground arith)

-- An anonymous caller without force reads no file under the owner preset, unless the stored owner
-- is the text "undefined".
pub decide_file_access-anonymous :
    (t : CheckInputType) (raw : RawFile) (tenant_id : Option Text)
    → IsRead t
    → raw.owner_id ≢ some (text "undefined")
    → decide_file_access owner false (some t) none (some raw) tenant_id ≡ false
unfolding decide_file_access
decide_file_access-anonymous t raw tenant_id read h =
    ground (arith, text_beq_iff (printed raw.owner_id) (text "undefined"))

-- Where the service skips the metadata lookup, the decision about a stated input type does not
-- depend on the stored document.
pub decide_file_access-needs_raw :
    (p : FileAccessPreset) (force : Bool) (t : CheckInputType) (user : Option FileUser)
    (raw : Option RawFile) (tenant_id : Option Text)
    → file_access_needs_raw_document p (some t) ≡ false
    → decide_file_access p force (some t) user raw tenant_id
      ≡ decide_file_access p force (some t) user none tenant_id
unfolding decide_file_access file_access_needs_raw_document
decide_file_access-needs_raw p force t user raw tenant_id h = ground arith

-- A value of `file.access` that is no preset never grants what the owner preset would refuse.
pub resolve_file_access_preset-unknown :
    (force : Bool) (t : Option CheckInputType) (user : Option FileUser) (raw : Option RawFile)
    (tenant_id : Option Text)
    → decide_file_access (resolve_file_access_preset unknown_preset) force t user raw tenant_id
      ≡ decide_file_access owner force t user raw tenant_id
unfolding resolve_file_access_preset
resolve_file_access_preset-unknown force t user raw tenant_id = refl
