-- ===== src/Restricted/Check.antt =====
-- checkRestricted on objects, arrays and everything else.
use nest_server.Prelude.{
  Bool, true, false, not, ◌&&◌, ◌||◌, Option, none, some, List, [], ◌++◌, Text, text_eq, ◌==◌,
  if◌then◌else◌, includes, is_empty, any,
}
use nest_server.Role.{s_self, s_creator}
use nest_server.Auth.User.{User}
use nest_server.Restricted.Data.{
  Value, undefined, function, falsy, leaf, object, array, Fields, no_field, field, Values, no_value,
  value, append, string_id, id_of_user, equal_ids, Restriction, role, role_list, entry, Config,
  Metadata,
}
use nest_server.Restricted.Validate.{Requester, validate_restricted, owner_of, created_by, id_of}

unfoldable pub and_then : {A B : Type 0} → Option A → (A → Option B) → Option B
and_then none next = none
and_then (some a) next = next a

-- metadataOwner
unfoldable pub metadata_owner : Option Text → Option Text → Option Text
metadata_owner (some class) declared = some class
metadata_owner none declared = declared

-- Functions and undefined values that the options leave alone.
unfoldable pub is_ignored : Config → Value → Bool
is_ignored config undefined = config.ignore_undefined
is_ignored config function = config.ignore_functions
is_ignored config falsy = false
is_ignored config (leaf s) = false
is_ignored config (object class marked fields) = false
is_ignored config (array values) = false

-- What the check of a property makes of `config.isCreatorOfParent`.
unfoldable pub creator_of_parent : Config → Option Value → Option User → Bool
unfolding equal_ids id_of_user created_by string_id
creator_of_parent config parent user =
    equal_ids (id_of parent) (id_of_user user) || elim (created_by parent) [
      | some creator ↦ equal_ids (string_id creator) (id_of_user user)
      | none ↦ config.is_creator_of_parent
    ]

unfoldable pub names_owner : Restriction → Bool
unfolding includes
names_owner (role r) = r == s_creator || r == s_self
names_owner (role_list roles) = includes roles s_creator || includes roles s_self
names_owner (entry roles process_type member_of) = includes roles s_creator || includes roles s_self

unfoldable pub drop_undefined : Values → Values
drop_undefined no_value = no_value
drop_undefined (value undefined values) = drop_undefined values
drop_undefined (value function values) = value function (drop_undefined values)
drop_undefined (value falsy values) = value falsy (drop_undefined values)
drop_undefined (value (leaf s) values) = value (leaf s) (drop_undefined values)
drop_undefined (value (object class marked fields) values) =
    value (object class marked fields) (drop_undefined values)
drop_undefined (value (array items) values) = value (array items) (drop_undefined values)

unfoldable pub all_undefined : Values → Values
all_undefined no_value = no_value
all_undefined (value v values) = value undefined (all_undefined values)

abbrev pub is_nullish : Value → Bool
is_nullish undefined = true
is_nullish function = false
is_nullish falsy = true
is_nullish (leaf s) = false
is_nullish (object class marked fields) = false
is_nullish (array values) = false

module _ (metadata : Metadata) (requester : Requester) where
  unfoldable pub class_restrictions : Option Text → List Restriction
  class_restrictions none = []
  class_restrictions (some class) = metadata.of_class class

  unfoldable pub property_restrictions : Option Text → Text → List Restriction
  property_restrictions none key = []
  property_restrictions (some class) key = metadata.of_property class key

  unfoldable pub nested_type_of : Option Text → Text → Option Text
  nested_type_of none key = none
  nested_type_of (some class) key = metadata.nested_type class key

  -- The restrictions of a property, with those of its class. Repeated ones change no answer.
  unfoldable pub restrictions_of : Config → Option Text → Text → List Restriction
  unfolding class_restrictions property_restrictions
  restrictions_of config owner key =
      if config.merge_roles
      then class_restrictions owner ++ property_restrictions owner key
      else property_restrictions owner key

  -- The sample stands for the array: it has a class with restrictions, none of which names an owner.
  unfoldable pub is_typed : Option Text → Value → Bool
  unfolding class_restrictions names_owner any metadata_owner
  is_typed declared (object class marked fields) =
      let restrictions = class_restrictions (metadata_owner class declared) in
      not (is_empty restrictions) && not (any names_owner restrictions)
  is_typed declared other = false

  unfoldable pub finish_array : Config → Values → Value
  unfolding drop_undefined
  finish_array config values = array (
      if not config.throw_error && config.remove_undefined_from_result_array
      then drop_undefined values
      else values)

  -- The end of the array branch, from the checked sample and the others.
  unfoldable pub collect : Config → Bool → Values → Value → Option Values → Option Value
  unfolding finish_array all_undefined and_then
  collect config typed values sample others =
      if typed && is_nullish sample
      then if config.throw_error
        then some (array values)
        else some (
            array (
              if config.remove_undefined_from_result_array then no_value else all_undefined values))
      else and_then others (λ checked. some (finish_array config (value sample checked)))

  -- One property: what is kept so far, with the option as it stands for the next property, from the
  -- check of the value itself.
  unfoldable pub visit :
      Config
      → Config
      → Option Text
      → Value
      → Fields
      → Text
      → Value
      → Option Value
      → Option (Config × Fields)
  unfolding validate_restricted restrictions_of is_ignored append and_then
  visit config deeper owner current kept key v checked =
      if is_ignored config v
      then some (config, append kept (field key v no_field))
      else if validate_restricted config requester current (restrictions_of config owner key)
      then and_then checked (λ v'. some (deeper, append kept (field key v' no_field)))
      else if config.throw_error
      then none
      else some (config, kept)

  -- What is returned for an object that fails the check of the object itself.
  unfoldable pub refuse_object : Config → Option Value
  refuse_object config = if config.throw_error then none else some falsy

  unfoldable mutual
    unfolding metadata_owner validate_restricted class_restrictions and_then collect is_typed visit
        creator_of_parent append refuse_object nested_type_of

    pub check_restricted : Config → Option Text → Value → Option Value
    check_restricted config declared undefined = some undefined
    check_restricted config declared function = some function
    check_restricted config declared falsy = some falsy
    check_restricted config declared (leaf s) = some (leaf s)
    check_restricted config declared (array values) = check_array config declared values
    check_restricted config declared (object class marked fields) =
        let owner = metadata_owner class declared in
        let checked = check_fields config owner class marked no_field fields in
        if config.note_checked_objects && marked
        then some (object class marked fields)
        else if config.check_object_itself
            && not (
                validate_restricted config requester (object class marked fields)
                  (class_restrictions owner))
        then refuse_object config
        else and_then checked (λ kept. some (object class marked kept))

    pub check_array : Config → Option Text → Values → Option Value
    check_array config declared no_value = some (array no_value)
    check_array config declared (value sample values) =
        let first = check_restricted config declared sample in
        let others = check_values config declared values in
        and_then first (λ checked.
          collect config (is_typed declared sample) (value sample values) checked others)

    pub check_values : Config → Option Text → Values → Option Values
    check_values config declared no_value = some no_value
    check_values config declared (value v values) =
        let rest = check_values config declared values in
        and_then (check_restricted config declared v)
          (λ checked. and_then rest (λ others. some (value checked others)))

    pub check_fields : Config → Option Text → Option Text → Bool → Fields → Fields → Option Fields
    check_fields config owner class marked kept no_field = some kept
    check_fields config owner class marked kept (field key v fields) =
        let current = object class marked (append kept (field key v fields)) in
        let deeper = record config {
          is_creator_of_parent = creator_of_parent config (owner_of config current) requester.user;
        } in
        let checked = check_restricted deeper (nested_type_of owner key) v in
        and_then (visit config deeper owner current kept key v checked)
          (λ next. check_fields next.0 owner class marked next.1 fields)
