-- ===== src/Restricted/Visit.antt =====
-- The visit of one property.
use nest_server.Restricted.Inversion.{and_then-some, unless_some}
use nest_server.Restricted.Shown.{with_creator, fair, append-clean, is_clean, are_clean_fields}
use mathlib.Core.Path.{subst}
use nest_server.Prelude.{
  ◌≡◌, refl, Bool, true, false, not, ◌&&◌, ◌||◌, Option, none, some, List, Text, text_eq, is_some,
  arith, Bool-cases, Option-cases, inl, inr,
}
use nest_server.Restricted.Data.{
  Value, undefined, function, falsy, leaf, object, array, Fields, no_field, field, append,
  string_id, id_of_user, Restriction, Config, Metadata,
}
use nest_server.Restricted.Validate.{Requester, validate_restricted, created_by, id_of}
use nest_server.Restricted.Check.{
  is_ignored, creator_of_parent, nested_type_of, restrictions_of, visit,
}
use nest_server.Restricted.Hidden.{is_hidden, validate-hidden, equal_ids-nobody, nobody_lem}

module _ (metadata : Metadata) (requester : Requester) (config : Config) where
  creator-nobody :
      (b : Bool) (parent : Option Value)
      → b ≡ false
      → creator_of_parent (with_creator config b) parent none ≡ false
  unfolding creator_of_parent id_of_user
  creator-nobody b parent unset = elim (Option-cases (created_by parent)) [
    | inl e ↦ rw (e, creator_of_parent, equal_ids-nobody (id_of parent)) unset
    | inr (creator, e) ↦
        rw (e, creator_of_parent, equal_ids-nobody (id_of parent))
          (equal_ids-nobody (string_id creator))
  ]

  pub creator-fair :
      (b : Bool) (parent : Option Value)
      → fair metadata requester config b ≡ true
      → fair metadata requester config
          (creator_of_parent (with_creator config b) parent requester.user)
        ≡ true
  creator-fair b parent h = elim (Bool-cases (is_some requester.user)) [
    | inl somebody ↦ rw somebody refl
    | inr nobody ↦
        let unset : b ≡ false = ground (arith, h, nobody) in
        rw (nobody_lem requester.user nobody, creator-nobody b parent unset) refl
  ]

  ignored_lem : (b : Bool) (v : Value) → is_ignored (with_creator config b) v ≡ is_ignored config v
  unfolding is_ignored
  ignored_lem b undefined = refl
  ignored_lem b function = refl
  ignored_lem b falsy = refl
  ignored_lem b (leaf s) = refl
  ignored_lem b (object class marked fields) = refl
  ignored_lem b (array values) = refl

  -- What a visit returns: the options but for the creator, and clean fields.
  abbrev Visited : Option Text → Config × Fields → Type 0
  Visited owner next =
      (b : Bool) × (next.0 ≡ with_creator config b)
      × (fair metadata requester config b ≡ true)
      × (are_clean_fields metadata requester config owner next.1 ≡ true)

  one_clean :
      (owner : Option Text) (kept : Fields) (key : Text) (v : Value)
      → are_clean_fields metadata requester config owner kept ≡ true
      → (is_ignored config v
          || not (is_hidden config requester (restrictions_of metadata requester config owner key))
            && is_clean metadata requester config (nested_type_of metadata requester owner key) v)
        ≡ true
      → are_clean_fields metadata requester config owner (append kept (field key v no_field)) ≡ true
  unfolding is_clean
  one_clean owner kept key v h k =
      append-clean metadata requester config owner kept (field key v no_field) h (ground (arith, k))

  not_hidden :
      (b : Bool) (current : Value) (rules : List Restriction)
      → fair metadata requester config b ≡ true
      → validate_restricted (with_creator config b) requester current rules ≡ true
      → is_hidden config requester rules ≡ false
  not_hidden b current rules fair_b valid = elim (Bool-cases (is_hidden config requester rules)) [
    | inr seen ↦ seen
    | inl hidden ↦ absurd (
        cc (
          valid,
          validate-hidden (with_creator config b) requester current rules fair_b
              (unfold is_hidden in hidden),
        ))
  ]

  pub visit-clean :
      (b b' : Bool) (owner : Option Text) (current : Value) (kept : Fields) (key : Text) (v : Value)
      (checked : Option Value) (next : Config × Fields)
      → fair metadata requester config b ≡ true
      → fair metadata requester config b' ≡ true
      → are_clean_fields metadata requester config owner kept ≡ true
      → ((v' : Value)
          → checked ≡ some v'
          → is_clean metadata requester config (nested_type_of metadata requester owner key) v'
            ≡ true)
      → visit metadata requester
          (with_creator config b)
          (with_creator config b')
          owner
          current
          kept
          key
          v
          checked
        ≡ some next
      → Visited owner next
  unfolding visit restrictions_of is_hidden
  visit-clean b b' owner current kept key v checked next fair_b fair_b' clean deep h =
      elim (Bool-cases (is_ignored (with_creator config b) v)) [
        | inl ignored ↦
            let e : some (with_creator config b, append kept (field key v no_field)) ≡ some next =
              rw (ignored, visit) at h in
            let same : (with_creator config b, append kept (field key v no_field)) ≡ next = cc e in
            subst (Visited owner) same (
              b,
              refl,
              fair_b,
              one_clean owner kept key v clean (ground (arith, ignored, ignored_lem b v)),
            )
        | inr taken ↦
            elim (Bool-cases
              (validate_restricted (with_creator config b) requester current rules)) [
                | inl valid ↦
                    let (v', e, made) =
                      and_then-some checked _ next (rw (taken, visit, valid) at h) in
                    let same : (with_creator config b', append kept (field key v' no_field))
                        ≡ next =
                      cc made in
                    let seen = not_hidden b current rules fair_b valid in
                    subst (Visited owner) same (
                      b',
                      refl,
                      fair_b',
                      one_clean owner kept key v' clean (ground (arith, seen, deep v' e)),
                    )
                | inr denied ↦
                    let same =
                      unless_some config.throw_error (with_creator config b, kept) next
                        (rw (taken, visit, denied) at h) in
                    subst (Visited owner) same (b, refl, fair_b, clean)
              ]
      ]
    where
      rules : List Restriction
      rules = restrictions_of metadata requester config owner key
