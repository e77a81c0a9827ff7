-- ===== src/Restricted/Shown.antt =====
-- When a value shows no hidden field, and what keeps it so.
use nest_server.Prelude.{◌≡◌, refl, Bool, true, not, ◌&&◌, ◌||◌, Option, Text, text_eq, arith}
use nest_server.Restricted.Data.{
  Value, undefined, function, falsy, leaf, object, array, Fields, no_field, field, Values, no_value,
  value, append, Config, Metadata,
}
use nest_server.Restricted.Validate.{Requester}
use nest_server.Restricted.Check.{
  metadata_owner, is_ignored, drop_undefined, all_undefined, nested_type_of, restrictions_of,
}
use nest_server.Restricted.Hidden.{is_hidden, is_fair}

abbrev pub with_creator : Config → Bool → Config
with_creator config b = record config { is_creator_of_parent = b }

module _ (metadata : Metadata) (requester : Requester) (config : Config) where
  -- No field is hidden, in a value whose type is declared, except under the marker of an object and
  -- among the functions and undefined values that the options leave alone.
  unfoldable mutual
    unfolding metadata_owner nested_type_of

    pub is_clean : Option Text → Value → Bool
    is_clean declared undefined = true
    is_clean declared function = true
    is_clean declared falsy = true
    is_clean declared (leaf s) = true
    is_clean declared (object class marked fields) =
        config.note_checked_objects && marked
        || are_clean_fields (metadata_owner class declared) fields
    is_clean declared (array values) = are_clean declared values

    pub are_clean : Option Text → Values → Bool
    are_clean declared no_value = true
    are_clean declared (value v values) = is_clean declared v && are_clean declared values

    pub are_clean_fields : Option Text → Fields → Bool
    are_clean_fields owner no_field = true
    are_clean_fields owner (field key v fields) =
        (is_ignored config v
          || not (is_hidden config requester (restrictions_of metadata requester config owner key))
            && is_clean (nested_type_of metadata requester owner key) v)
        && are_clean_fields owner fields

  abbrev pub fair : Bool → Bool
  fair b = is_fair requester (with_creator config b)

  pub append-clean :
      (owner : Option Text) (fields others : Fields)
      → are_clean_fields owner fields ≡ true
      → are_clean_fields owner others ≡ true
      → are_clean_fields owner (append fields others) ≡ true
  unfolding append is_clean
  append-clean owner no_field others h k = k
  append-clean owner (field key v fields) others h k =
      ground (arith, append-clean owner fields others)

  pub drop_undefined-clean :
      (declared : Option Text) (values : Values)
      → are_clean declared values ≡ true
      → are_clean declared (drop_undefined values) ≡ true
  unfolding drop_undefined is_clean
  drop_undefined-clean declared no_value h = refl
  drop_undefined-clean declared (value undefined values) h = drop_undefined-clean declared values h
  drop_undefined-clean declared (value function values) h = drop_undefined-clean declared values h
  drop_undefined-clean declared (value falsy values) h = drop_undefined-clean declared values h
  drop_undefined-clean declared (value (leaf s) values) h = drop_undefined-clean declared values h
  drop_undefined-clean declared (value (object class marked fields) values) h =
      ground (arith, drop_undefined-clean declared values)
  drop_undefined-clean declared (value (array items) values) h =
      ground (arith, drop_undefined-clean declared values)

  pub all_undefined-clean :
      (declared : Option Text) (values : Values) → are_clean declared (all_undefined values) ≡ true
  unfolding all_undefined is_clean
  all_undefined-clean declared no_value = refl
  all_undefined-clean declared (value v values) = all_undefined-clean declared values
