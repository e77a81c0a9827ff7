-- ===== src/Restricted/Data.antt =====
-- Values, the ids that they carry, restrictions, and the options of a check.
use nest_server.Prelude.{
  Bool, true, false, not, ◌&&◌, Option, none, some, List, Text, text, text_eq, ◌==◌, if◌then◌else◌,
  is_empty,
}
use nest_server.Auth.User.{User}

-- A leaf is a truthy value that is no plain object or instance of a model, such as a string, a number,
-- an ObjectId or a date, with its text. An object has the class of its constructor, unless that is
-- `Object`, and may carry the marker of markRestrictionsChecked.
mutual
  pub data Value : Type 0 where
    undefined function falsy : Value
    leaf : Text → Value
    object : (class : Option Text) (marked : Bool) → Fields → Value
    array : Values → Value

  pub data Fields : Type 0 where
    no_field : Fields
    field : Text → Value → Fields → Fields

  pub data Values : Type 0 where
    no_value : Values
    value : Value → Values → Values

unfoldable pub is_falsy : Value → Bool
is_falsy undefined = true
is_falsy function = false
is_falsy falsy = true
is_falsy (leaf s) = false
is_falsy (object class marked fields) = false
is_falsy (array values) = false

unfoldable pub append : Fields → Fields → Fields
append no_field others = others
append (field key v fields) others = field key v (append fields others)

-- `data[key]`, where the object has the key
unfoldable pub find_field : Text → Fields → Option Value
find_field key no_field = none
find_field key (field other v fields) =
    let rest = find_field key fields in if other == key then some v else rest

abbrev pub plain_text : Text
plain_text = text "[object Object]"

-- The first id that is not missing: of the field `id`, of `_id`, or the text of an object.
unfoldable pub first_id : Option (Option Text) → Option (Option Text) → Option Text
first_id (some id) other = id
first_id none (some id) = id
first_id none none = some plain_text

-- getStringIds on one value; `none` where that is falsy, or an array.
unfoldable mutual
  unfolding is_falsy first_id

  pub string_id : Value → Option Text
  string_id undefined = none
  string_id function = none
  string_id falsy = none
  string_id (leaf s) = some s
  string_id (object class marked fields) =
      first_id (id_in (text "id") fields) (id_in (text "_id") fields)
  string_id (array values) = none

  -- the id in a field that is truthy
  pub id_in : Text → Fields → Option (Option Text)
  id_in key no_field = none
  id_in key (field other v fields) =
      let rest = id_in key fields in
      let here = string_id v in if other == key && not (is_falsy v) then some here else rest

unfoldable pub id_of_user : Option User → Option Text
id_of_user none = none
id_of_user (some user) = if is_empty user.id then some plain_text else some user.id

-- equalIds
unfoldable pub equal_ids : Option Text → Option Text → Bool
equal_ids none other = false
equal_ids (some id) none = false
equal_ids (some id) (some other) = not (is_empty id) && id == other

pub data ProcessType : Type 0 where
  input output : ProcessType

-- An element of RestrictedType; a single role or property of the longer form is a list of one.
pub data Restriction : Type 0 where
  role : Text → Restriction
  role_list : List Text → Restriction
  entry :
      (roles : List Text) (process_type : Option ProcessType) (member_of : List Text) → Restriction

-- What the decorators declare of a class: its restrictions, those of a property, and the type of one.
pub record Metadata : Type 0 where
  pub of_class : Text → List Restriction
  pub of_property : Text → Text → List Restriction
  pub nested_type : Text → Text → Option Text

pub record Config : Type 0 where
  pub allow_creator_of_parent : Bool
  pub check_object_itself : Bool
  pub db_object : Option Value
  pub ignore_functions : Bool
  pub ignore_undefined : Bool
  pub is_creator_of_parent : Bool
  pub merge_roles : Bool
  pub note_checked_objects : Bool
  pub process_type : Option ProcessType
  pub remove_undefined_from_result_array : Bool
  pub throw_error : Bool
