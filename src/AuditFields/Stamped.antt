-- ===== src/AuditFields/Stamped.antt =====
-- Whom the fields name after the hooks of the audit fields plugin.
use nest_server.AuditFields.{
  Schema, Fields, Update, Operation, insert_one, update_one, update_many, replace_one,
  other_operation, is_truthy, creator_in, or_empty, fill_creator, put_updater, by_user,
  put_updater_in_update, fill_creator_on_insert, stamp_update, stamp_document, stamp_operation,
  bulk_write,
}
use nest_server.Prelude.{
  Bool, true, false, not, ◌&&◌, Option, none, some, List, [], ◌∷◌, map, Text, text, text_eq, ◌==◌,
  if◌then◌else◌, ◌≡◌, refl, Bool-cases, inl, inr,
}
use mathlib.Core.Option

unfoldable pub first_of : Option Text → Option Text → Option Text
unfolding is_truthy
first_of a b = if is_truthy a then a else b

-- The creator that an update names for a document that it makes: at its top, else in $set, else in
-- $setOnInsert.
unfoldable pub creator_of_update : Update → Option Text
unfolding first_of creator_in
creator_of_update u =
    first_of u.direct.created_by (first_of (creator_in u.set) (creator_in u.set_on_insert))

-- The creator that an operation names for a document that it makes.
unfoldable pub creator : Operation → Option Text
unfolding creator_of_update
creator (insert_one f) = f.created_by
creator (update_one none) = none
creator (update_one (some u)) = creator_of_update u
creator (update_many none) = none
creator (update_many (some u)) = creator_of_update u
creator (replace_one f) = f.created_by
creator other_operation = none

-- Whether an operation has data to write.
unfoldable pub has_data : Operation → Bool
has_data (insert_one f) = true
has_data (update_one none) = false
has_data (update_one (some u)) = true
has_data (update_many none) = false
has_data (update_many (some u)) = true
has_data (replace_one f) = true
has_data other_operation = false

-- The creator that an operation should name for the user `id`.
unfoldable pub creator_for : Text → Operation → Option Text
unfolding first_of creator has_data
creator_for id op = if has_data op then first_of (creator op) (some id) else none

-- $set's own value of updatedBy, where there is a $set
unfoldable pub in_set : Option Fields → List (Option Text)
in_set none = []
in_set (some f) = f.updated_by ∷ []

-- The two values of updatedBy in an operation: at its top and in $set.
unfoldable pub updaters : Operation → List (Option Text)
unfolding in_set
updaters (insert_one f) = f.updated_by ∷ []
updaters (update_one none) = []
updaters (update_one (some u)) = u.direct.updated_by ∷ in_set u.set
updaters (update_many none) = []
updaters (update_many (some u)) = u.direct.updated_by ∷ in_set u.set
updaters (replace_one f) = f.updated_by ∷ []
updaters other_operation = []

fill_creator-created :
    (id : Text) (f : Fields) → (fill_creator true id f).created_by ≡ first_of f.created_by (some id)
unfolding fill_creator first_of
fill_creator-created id f = elim (Bool-cases (is_truthy f.created_by)) [
  | inl given ↦ rw (given) refl
  | inr missing ↦ rw (missing) refl
]

put_updater-created :
    (flag : Bool) (id : Text) (f : Fields) → (put_updater flag id f).created_by ≡ f.created_by
unfolding put_updater
put_updater-created false id f = refl
put_updater-created true id f = refl

creator_in-put_updater :
    (flag : Bool) (id : Text) (set : Option Fields)
    → creator_in (Option.map (put_updater flag id) set) ≡ creator_in set
unfolding creator_in
creator_in-put_updater flag id none = refl
creator_in-put_updater flag id (some f) = put_updater-created flag id f

or_empty-creator : (f : Option Fields) → (or_empty f).created_by ≡ creator_in f
unfolding or_empty creator_in
or_empty-creator none = refl
or_empty-creator (some f) = refl

fill_creator_on_insert-creator :
    (id : Text) (u : Update)
    → creator_of_update (fill_creator_on_insert true id u)
      ≡ first_of (creator_of_update u) (some id)
unfolding fill_creator_on_insert creator_of_update first_of creator_in
fill_creator_on_insert-creator id u = elim (Bool-cases (is_truthy u.direct.created_by)) [
  | inl direct ↦ rw (direct) (rw (direct) refl)
  | inr no_direct ↦ elim (Bool-cases (is_truthy (creator_in u.set))) [
    | inl in_set ↦ rw (no_direct, in_set) (rw (no_direct, in_set) refl)
    | inr no_set ↦
        rw (no_direct, no_set)
          (rw (no_direct, no_set)
            (rw
              (fill_creator-created id (or_empty u.set_on_insert), or_empty-creator u.set_on_insert)
              refl))
  ]
]

put_updater_in_update-creator :
    (flag : Bool) (id : Text) (u : Update)
    → creator_of_update (put_updater_in_update flag id u) ≡ creator_of_update u
unfolding put_updater_in_update creator_of_update
put_updater_in_update-creator flag id u =
    rw (put_updater-created flag id u.direct, creator_in-put_updater flag id u.set) refl

abbrev updaters_of_update : Update → List (Option Text)
updaters_of_update u = u.direct.updated_by ∷ in_set u.set

fill_creator-updated :
    (flag : Bool) (id : Text) (f : Fields) → (fill_creator flag id f).updated_by ≡ f.updated_by
unfolding fill_creator
fill_creator-updated flag id f = elim (Bool-cases (flag && not (is_truthy f.created_by))) [
  | inl missing ↦ rw (missing) refl
  | inr given ↦ rw (given) refl
]

fill_creator_on_insert-updaters :
    (flag : Bool) (id : Text) (u : Update)
    → updaters_of_update (fill_creator_on_insert flag id u) ≡ updaters_of_update u
unfolding fill_creator_on_insert
fill_creator_on_insert-updaters flag id u =
    elim (Bool-cases
      (flag && not (is_truthy u.direct.created_by) && not (is_truthy (creator_in u.set)))) [
        | inl missing ↦ rw (missing) refl
        | inr given ↦ rw (given) refl
      ]

in_set-put_updater :
    (id : Text) (set : Option Fields)
    → in_set (Option.map (put_updater true id) set) ≡ map (λ _. some id) (in_set set)
unfolding in_set put_updater
in_set-put_updater id none = refl
in_set-put_updater id (some f) = refl

module _ (s : Schema) (updated : s.has_updated_by ≡ true) (id : Text) where
  stamp_update-updaters :
      (u : Update)
      → updaters_of_update (stamp_update s id u) ≡ map (λ _. some id) (updaters_of_update u)
  unfolding stamp_update put_updater_in_update put_updater
  stamp_update-updaters u =
      rw
        (
          fill_creator_on_insert-updaters s.has_created_by id
              (put_updater_in_update s.has_updated_by id u),
          updated,
          in_set-put_updater id u.set,
        )
        refl

  stamp_operation-updaters :
      (op : Operation) → updaters (stamp_operation s id op) ≡ map (λ _. some id) (updaters op)
  unfolding stamp_operation stamp_document updaters put_updater
  stamp_operation-updaters (insert_one f) = rw (updated) refl
  stamp_operation-updaters (update_one none) = refl
  stamp_operation-updaters (update_one (some u)) = stamp_update-updaters u
  stamp_operation-updaters (update_many none) = refl
  stamp_operation-updaters (update_many (some u)) = stamp_update-updaters u
  stamp_operation-updaters (replace_one f) =
      rw (fill_creator-updated s.has_created_by id (put_updater s.has_updated_by id f), updated)
        refl
  stamp_operation-updaters other_operation = refl

map-stamped :
    {A : Type 0} (s : Schema) (id : Text) (see wanted : Operation → A)
    (stamped : (op : Operation) → see (stamp_operation s id op) ≡ wanted op) (ops : List Operation)
    → map see (map (stamp_operation s id) ops) ≡ map wanted ops
map-stamped s id see wanted stamped [] = refl
map-stamped s id see wanted stamped (op ∷ ops) =
    rw (stamped op, map-stamped s id see wanted stamped ops) refl

module _ (s : Schema) (created : s.has_created_by ≡ true) (id : Text) where
  stamp_update-creator :
      (u : Update)
      → creator_of_update (stamp_update s id u) ≡ first_of (creator_of_update u) (some id)
  unfolding stamp_update
  stamp_update-creator u =
      let v = put_updater_in_update s.has_updated_by id u in
      rw
        (
          created,
          fill_creator_on_insert-creator id v,
          put_updater_in_update-creator s.has_updated_by id u,
        )
        refl

  stamp_operation-creator : (op : Operation) → creator (stamp_operation s id op) ≡ creator_for id op
  unfolding stamp_operation stamp_document creator creator_for has_data
  stamp_operation-creator (insert_one f) =
      rw
        (
          put_updater-created s.has_updated_by id (fill_creator s.has_created_by id f),
          created,
          fill_creator-created id f,
        )
        refl
  stamp_operation-creator (update_one none) = refl
  stamp_operation-creator (update_one (some u)) = stamp_update-creator u
  stamp_operation-creator (update_many none) = refl
  stamp_operation-creator (update_many (some u)) = stamp_update-creator u
  stamp_operation-creator (replace_one f) =
      rw
        (
          created,
          fill_creator-created id (put_updater s.has_updated_by id f),
          put_updater-created s.has_updated_by id f,
        )
        refl
  stamp_operation-creator other_operation = refl

-- On a schema with both fields, after bulkWrite by the user `id` every operation with data names as the
-- creator of what it makes whom it named before, and the user where it named no one; and every value of
-- updatedBy, at the top of an update and in its $set, is the user, whatever it was before.
pub bulk_write-names :
    (s : Schema) (created : s.has_created_by ≡ true) (updated : s.has_updated_by ≡ true) (id : Text)
    (given : (id == text "") ≡ false) (ops : List Operation)
    → (map creator (bulk_write s (some id) ops) ≡ map (creator_for id) ops)
      × (map updaters (bulk_write s (some id) ops)
          ≡ map (λ op. map (λ _. some id) (updaters op)) ops)
unfolding bulk_write by_user
bulk_write-names s created updated id given ops = rw (given) (
  map-stamped s id creator (creator_for id) (stamp_operation-creator s created id) ops,
  map-stamped s id updaters (λ op. map (λ _. some id) (updaters op))
      (stamp_operation-updaters s updated id) ops,
)
