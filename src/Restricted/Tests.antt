-- ===== src/Restricted/Tests.antt =====
-- The check of restricted fields at concrete inputs.
use nest_server.Prelude.{
  text_beq, ◌≡◌, refl, true, false, none, some, [], ◌∷◌, text, text_eq, ◌==◌, if◌then◌else◌,
}
use nest_server.Tenant.Boundary.{resolve_from}
use nest_server.Role.{s_no_one, s_user, s_creator}
use nest_server.Restricted.Data.{
  Value, leaf, object, array, no_field, field, no_value, value, output, role, Config, Metadata,
}
use nest_server.Restricted.Validate.{Requester}
use nest_server.Restricted.Check.{check_restricted}
use nest_server.Restricted.Shown.{is_clean}
use nest_server.Restricted.Clean.{check_restricted-is_clean}

-- Nobody sees a secret, and only users see the street of an address.
abbrev metadata : Metadata
metadata = record {
  of_class = λ class. [];
  of_property = λ class key.
      if key == text "secret"
      then role s_no_one ∷ []
      else if key == text "street"
      then role s_user ∷ []
      else if key == text "draft"
      then role s_creator ∷ []
      else [];
  nested_type = λ class key. if key == text "address" then some (text "Address") else none;
}

abbrev for_output : Config
for_output = record {
  allow_creator_of_parent = true;
  check_object_itself = false;
  db_object = none;
  ignore_functions = true;
  ignore_undefined = true;
  is_creator_of_parent = false;
  merge_roles = true;
  note_checked_objects = true;
  process_type = some output;
  remove_undefined_from_result_array = true;
  throw_error = false;
}

abbrev nobody : Requester
nobody = record { user = none; tenant_role = none; multi_tenancy = none; sources = [] }

abbrev address : Value
address =
    object none false
      (field (text "street") (leaf (text "s")) (field (text "town") (leaf (text "t")) no_field))

abbrev person : Value
person = object (some (text "Person")) false (
    field (text "secret") (leaf (text "x"))
      (field (text "address") (array (value address no_value)) no_field))

abbrev town_only : Value
town_only = object (some (text "Person")) false (
    field (text "address")
      (array (value (object none false (field (text "town") (leaf (text "t")) no_field)) no_value))
      no_field)

checked_person : check_restricted metadata nobody for_output none person ≡ some town_only
unfolding check_restricted text_beq
checked_person = refl

check_restricted-is_clean_example : is_clean metadata nobody for_output none town_only ≡ true
check_restricted-is_clean_example =
    check_restricted-is_clean metadata nobody for_output none person town_only refl checked_person

abbrev ann : Requester
ann = record {
  user = some (record {
    id = text "a";
    roles = some [];
    has_role = none;
    verified = false;
    verified_at = false;
    email_verified = false;
    authenticated_via_better_auth = true;
  });
  tenant_role = none;
  multi_tenancy = none;
  sources = [];
}

-- A field for the creator is removed in front of another field, and kept behind it.
order_matters :
    (check_restricted metadata ann for_output none (
        object
          (some (text "Person"))
          false
          (field (text "draft") (leaf (text "d")) (field (text "id") (leaf (text "a")) no_field)))
      ≡ some (object (some (text "Person")) false (field (text "id") (leaf (text "a")) no_field)))
    × (check_restricted metadata ann for_output none (
          object
            (some (text "Person"))
            false
            (field (text "id") (leaf (text "a")) (field (text "draft") (leaf (text "d")) no_field)))
        ≡ some (
            object (some (text "Person")) false (
              field
                (text "id")
                (leaf (text "a"))
                (field (text "draft") (leaf (text "d")) no_field))))
unfolding check_restricted text_beq resolve_from
order_matters = (refl, refl)
