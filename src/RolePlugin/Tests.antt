-- ===== src/RolePlugin/Tests.antt =====
-- The theorems on the role guard plugin at concrete inputs.
use nest_server.RolePlugin.{
  is_role_change_allowed, Context, unset, role_array, Update, Operation, update_one, insert_one,
  bulk_write, handle_update_role_guard,
}
use nest_server.Prelude.{
  Bool, Text, text_eq, includes, text_beq, ◌≡◌, refl, true, false, none, some, List, [], ◌∷◌, text,
}
use nest_server.Role.{admin}
use nest_server.Auth.User.{User, has_role}
use nest_server.RolePlugin.Guarded.{
  gives, inserted_by, names, bulk_write-guarded, handle-inserted_by,
}

abbrev guest : User
guest = record {
  id = text "g";
  roles = some [];
  has_role = some (has_role (some []));
  verified = false;
  verified_at = false;
  email_verified = false;
  authenticated_via_better_auth = false;
}

abbrev as_guest : Context
as_guest = record { current_user = some guest; is_bypass_role_guard = false; config = unset }

-- The guest asks for the platform's role in every place.
abbrev greedy : Update Bool
greedy = record {
  direct = some (role_array (admin ∷ []));
  set = some (role_array (admin ∷ []));
  push = none;
  add_to_set = some (role_array (admin ∷ []));
  pull = none;
  set_on_insert = some (role_array (admin ∷ []));
  rest = false;
}

abbrev requests : List (Operation Bool)
requests =
    insert_one
      (some (record { roles = some (role_array (admin ∷ [])); is_new = true; is_modified = true }))
    ∷ update_one (some greedy)
    ∷ []

-- The rest of an update is a $unset of the roles, or nothing.
abbrev after_rest : Bool → List Text → List Text
after_rest true roles = []
after_rest false roles = roles

only_removes :
    (rest : Bool) (roles : List Text) (role : Text)
    → includes (after_rest rest roles) role ≡ true
    → includes roles role ≡ true
unfolding includes
only_removes true roles role h = absurd (cc h)
only_removes false roles role h = h

bulk_write-guarded_example :
    gives after_rest (text "editor" ∷ []) admin (bulk_write as_guest requests) ≡ false
unfolding is_role_change_allowed has_role
bulk_write-guarded_example =
    bulk_write-guarded after_rest only_removes as_guest refl requests (text "editor" ∷ []) admin

-- Without the plugin the same requests do give the role.
gives_unguarded : gives after_rest (text "editor" ∷ []) admin requests ≡ true
unfolding gives includes text text_beq
gives_unguarded = refl

handle-inserted_by_example :
    (v : Update Bool) × (handle_update_role_guard as_guest (some greedy) ≡ some v)
    × (inserted_by v ≡ admin ∷ [])
unfolding is_role_change_allowed has_role names
handle-inserted_by_example = handle-inserted_by as_guest refl greedy
