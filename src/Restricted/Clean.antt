-- ===== src/Restricted/Clean.antt =====
-- The values that the check returns.
use nest_server.Restricted.Inversion.{and_then-some, otherwise_some, object_inv}
use nest_server.Restricted.Shown.{
  with_creator, fair, drop_undefined-clean, all_undefined-clean, is_clean, are_clean,
  are_clean_fields,
}
use nest_server.Restricted.Visit.{creator-fair, visit-clean}
use mathlib.Core.Path.{subst}
use nest_server.Prelude.{
  ◌≡◌, refl, Bool, true, false, not, ◌&&◌, Option, some, Text, text_eq, if◌then◌else◌, arith,
  Bool-cases, inl, inr,
}
use nest_server.Restricted.Data.{
  Value, undefined, function, falsy, leaf, object, array, Fields, no_field, field, Values, no_value,
  value, append, Config, Metadata,
}
use nest_server.Restricted.Validate.{Requester, owner_of}
use nest_server.Restricted.Check.{
  metadata_owner, creator_of_parent, drop_undefined, all_undefined, is_nullish, nested_type_of,
  is_typed, finish_array, collect, visit, refuse_object, check_restricted, check_array,
  check_values, check_fields,
}
use nest_server.Restricted.Hidden.{is_fair}

module _ (metadata : Metadata) (requester : Requester) (config : Config) where
  choice_clean :
      (declared : Option Text) (c : Bool) (xs ys : Values)
      → are_clean metadata requester config declared xs ≡ true
      → are_clean metadata requester config declared ys ≡ true
      → are_clean metadata requester config declared (if c then xs else ys) ≡ true
  choice_clean declared true xs ys h k = h
  choice_clean declared false xs ys h k = k

  both_clean :
      (declared : Option Text) (v : Value) (values : Values)
      → is_clean metadata requester config declared v ≡ true
      → are_clean metadata requester config declared values ≡ true
      → are_clean metadata requester config declared (value v values) ≡ true
  unfolding is_clean
  both_clean declared v values h k = ground (arith, h, k)

  finish_array-clean :
      (b : Bool) (declared : Option Text) (values : Values)
      → are_clean metadata requester config declared values ≡ true
      → is_clean metadata requester config declared
          (finish_array metadata requester (with_creator config b) values)
        ≡ true
  unfolding finish_array is_clean
  finish_array-clean b declared values h =
      choice_clean declared (not config.throw_error && config.remove_undefined_from_result_array)
        (drop_undefined values) values
        (drop_undefined-clean metadata requester config declared values h) h

  collect-clean :
      (b : Bool) (declared : Option Text) (typed : Bool) (values : Values) (sample : Value)
      (others : Option Values) (v : Value)
      → (config.throw_error && typed && is_nullish sample) ≡ false
      → is_clean metadata requester config declared sample ≡ true
      → ((checked : Values)
          → others ≡ some checked
          → are_clean metadata requester config declared checked ≡ true)
      → collect metadata requester (with_creator config b) typed values sample others ≡ some v
      → is_clean metadata requester config declared v ≡ true
  unfolding collect
  collect-clean b declared typed values sample others v never first rest h =
      elim (Bool-cases (typed && is_nullish sample)) [
        | inl refused ↦
            let same =
              otherwise_some config.throw_error (array values)
                (array (
                  if config.remove_undefined_from_result_array
                  then no_value
                  else all_undefined values))
                v (ground (arith, never, refused)) (rw (refused, collect) at h) in
            subst (λ v. is_clean metadata requester config declared v ≡ true) same
              (unfold is_clean in
                choice_clean declared config.remove_undefined_from_result_array no_value
                  (all_undefined values) (unfold is_clean in refl)
                  (all_undefined-clean metadata requester config declared values))
        | inr taken ↦
            let (checked, e, made) = and_then-some others _ v (rw (taken, collect) at h) in
            let same : finish_array metadata requester (with_creator config b)
                  (value sample checked)
                ≡ v =
              cc made in
            subst (λ v. is_clean metadata requester config declared v ≡ true) same
              (finish_array-clean b declared (value sample checked)
                (both_clean declared sample checked first (rest checked e)))
      ]

  -- An object that is checked while exceptions are on stays an object.
  typed_lem :
      (b : Bool) (declared : Option Text) (v checked : Value)
      → check_restricted metadata requester (with_creator config b) declared v ≡ some checked
      → (config.throw_error && is_typed metadata requester declared v && is_nullish checked) ≡ false
  unfolding check_restricted is_typed refuse_object
  typed_lem b declared undefined checked h = ground arith
  typed_lem b declared function checked h = ground arith
  typed_lem b declared falsy checked h = ground arith
  typed_lem b declared (leaf s) checked h = ground arith
  typed_lem b declared (array values) checked h = ground arith
  typed_lem b declared (object class marked fields) checked h =
      elim (object_inv (config.note_checked_objects && marked) _ config.throw_error class marked
        fields _ checked h) [
          | inl (m, e) ↦ rw e (ground arith)
          | inr (inl (quiet, e)) ↦ ground (arith, quiet)
          | inr (inr (kept, found, e)) ↦ rw e (ground arith)
        ]

  abbrev Clean : Option Text → Option Value → Type 0
  Clean declared result =
      (v : Value) → result ≡ some v → is_clean metadata requester config declared v ≡ true

  leaf_clean :
      (declared : Option Text) (v v' : Value)
      → is_clean metadata requester config declared v ≡ true
      → some v ≡ some v'
      → is_clean metadata requester config declared v' ≡ true
  leaf_clean declared v v' clean h =
      let same : v ≡ v' = cc h in
      subst (λ v. is_clean metadata requester config declared v ≡ true) same clean

  nil_clean :
      (declared : Option Text) (checked : Values)
      → some no_value ≡ some checked
      → are_clean metadata requester config declared checked ≡ true
  nil_clean declared checked h =
      let same : no_value ≡ checked = cc h in
      subst (λ vs. are_clean metadata requester config declared vs ≡ true) same
        (unfold is_clean in refl)

  mutual
    unfolding check_restricted refuse_object is_clean

    restricted-Clean :
        (b : Bool) (declared : Option Text) (v : Value)
        → fair metadata requester config b ≡ true
        → Clean declared (check_restricted metadata requester (with_creator config b) declared v)
    restricted-Clean b declared undefined fair_b v h = leaf_clean declared undefined v refl h
    restricted-Clean b declared function fair_b v h = leaf_clean declared function v refl h
    restricted-Clean b declared falsy fair_b v h = leaf_clean declared falsy v refl h
    restricted-Clean b declared (leaf s) fair_b v h = leaf_clean declared (leaf s) v refl h
    restricted-Clean b declared (array values) fair_b v h = array-Clean b declared values fair_b v h
    restricted-Clean b declared (object class marked fields) fair_b v h =
        let inner =
          fields-clean b (metadata_owner class declared) class marked no_field fields fair_b refl in
        elim (object_inv (config.note_checked_objects && marked) _ config.throw_error class marked
          fields _ v h) [
            | inl (m, e) ↦ rw e (ground (arith, m))
            | inr (inl (quiet, e)) ↦ rw e refl
            | inr (inr (kept, found, e)) ↦
                let fine = inner kept found in rw e (ground (arith, fine))
          ]

    array-Clean :
        (b : Bool) (declared : Option Text) (values : Values)
        → fair metadata requester config b ≡ true
        → Clean declared (check_array metadata requester (with_creator config b) declared values)
    array-Clean b declared no_value fair_b v h = leaf_clean declared (array no_value) v refl h
    array-Clean b declared (value sample values) fair_b v h =
        let first = restricted-Clean b declared sample fair_b in
        let others = values-clean b declared values fair_b in
        let (checked, e, made) =
          and_then-some
            (check_restricted metadata requester (with_creator config b) declared sample) _ v h in
        collect-clean b declared (is_typed metadata requester declared sample) (value sample values)
          checked (check_values metadata requester (with_creator config b) declared values) v
          (typed_lem b declared sample checked e) (first checked e) others made

    values-clean :
        (b : Bool) (declared : Option Text) (values : Values)
        → fair metadata requester config b ≡ true
        → (checked : Values)
        → check_values metadata requester (with_creator config b) declared values ≡ some checked
        → are_clean metadata requester config declared checked ≡ true
    values-clean b declared no_value fair_b checked h = nil_clean declared checked h
    values-clean b declared (value v values) fair_b checked h =
        let first = restricted-Clean b declared v fair_b in
        let others = values-clean b declared values fair_b in
        let (v', e, next) =
          and_then-some (check_restricted metadata requester (with_creator config b) declared v) _
            checked h in
        let (rest, e', made) =
          and_then-some (check_values metadata requester (with_creator config b) declared values) _
            checked next in
        let same : value v' rest ≡ checked = cc made in
        subst (λ vs. are_clean metadata requester config declared vs ≡ true) same
          (both_clean declared v' rest (first v' e) (others rest e'))

    fields-clean :
        (b : Bool) (owner class : Option Text) (marked : Bool) (kept fields : Fields)
        → fair metadata requester config b ≡ true
        → are_clean_fields metadata requester config owner kept ≡ true
        → (out : Fields)
        → check_fields metadata requester (with_creator config b) owner class marked kept fields
          ≡ some out
        → are_clean_fields metadata requester config owner out ≡ true
    fields-clean b owner class marked kept no_field fair_b clean out h =
        let same : kept ≡ out = cc h in
        subst (λ fields. are_clean_fields metadata requester config owner fields ≡ true) same clean
    fields-clean b owner class marked kept (field key v fields) fair_b clean out h =
        let current = object class marked (append kept (field key v fields)) in
        let b' =
          creator_of_parent (with_creator config b) (owner_of (with_creator config b) current)
            requester.user in
        let fair_b' =
          creator-fair metadata requester config b (owner_of (with_creator config b) current)
            fair_b in
        let deep = restricted-Clean b' (nested_type_of metadata requester owner key) v fair_b' in
        let rest = λ (c : Bool) (k : Fields). fields-clean c owner class marked k fields in
        let (next, e, made) =
          and_then-some
            (visit metadata requester (with_creator config b) (with_creator config b') owner current
              kept key v
              (check_restricted metadata requester (with_creator config b')
                (nested_type_of metadata requester owner key) v))
            _ out h in
        let (c, same, fair_c, clean_next) =
          visit-clean metadata requester config b b' owner current kept key v
            (check_restricted metadata requester (with_creator config b')
              (nested_type_of metadata requester owner key) v)
            next fair_b fair_b' clean deep e in
        rest c next.1 fair_c clean_next out (
          subst (λ o. check_fields metadata requester o owner class marked next.1 fields ≡ some out)
            same made)

  -- In what checkRestricted returns no field is left, however deep it stands, whose restrictions name
  -- S_NO_ONE, and, without a user, none whose restrictions name roles or groups but not S_EVERYONE. The
  -- exceptions are objects under the marker of markRestrictionsChecked, and functions and undefined
  -- values that the options leave alone. Without a user the check must not start as that of the
  -- creator of a parent object.
  pub check_restricted-is_clean :
      (declared : Option Text) (v v' : Value)
      → is_fair requester config ≡ true
      → check_restricted metadata requester config declared v ≡ some v'
      → is_clean metadata requester config declared v' ≡ true
  check_restricted-is_clean declared v v' fair_config h =
      restricted-Clean config.is_creator_of_parent declared v fair_config v' h
