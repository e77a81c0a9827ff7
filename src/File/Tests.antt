-- ===== src/File/Tests.antt =====
-- The theorems on file access at concrete inputs.
use nest_server.File.Access.{
  is_admin, FileUser, RawFile, id, filter_args, owner, tenant, decide_file_access,
}
use nest_server.Prelude.{◌≡◌, refl, inl, false, none, some, [], ◌∷◌}
use nest_server.File.Access.Laws.{decide_file_access-refuses}

abbrev ann : FileUser
ann = record { user_id = some (b'a' ∷ []); roles = [] }

abbrev raw : RawFile
raw = record { owner_id = some (b'a' ∷ []); tenant_id = some (b't' ∷ []) }

decide_file_access-refuses_example :
    (decide_file_access owner false (some filter_args) (some ann) (some raw) none ≡ false)
    × (decide_file_access owner false (some id) (some ann) none none ≡ false)
    × (decide_file_access tenant false (some id) (some ann) (some raw) none ≡ false)
unfolding is_admin
decide_file_access-refuses_example =
    decide_file_access-refuses owner (some ann) (some raw) none id (inl refl) refl (inl refl)
