-- ===== src/AuditFields/Own.antt =====
-- The hooks for many documents or operations beside the hooks for one.
use nest_server.AuditFields.{
  Schema, Fields, Update, Operation, insert_one, update_one, update_many, replace_one,
  other_operation, put_updater, stamp_update, or_empty, by_user, stamp_document, stamp_operation,
  save, update_hook, replace_hook, insert_many, bulk_write, fill_creator,
}
use nest_server.Prelude.{
  true, Option, none, some, List, [], ◌∷◌, map, Text, text, text_eq, ◌==◌, ◌≡◌, refl, sym, ◌∙◌,
  Bool-cases, inl, inr,
}

-- An operation of bulkWrite after the hook that its single request would meet: save of a new document,
-- updateOne, updateMany or replaceOne.
unfoldable pub alone : Schema → Option Text → Operation → Operation
unfolding save update_hook replace_hook or_empty
alone s user (insert_one f) = insert_one (save s user true f)
alone s user (update_one u) = update_one (update_hook s user u)
alone s user (update_many u) = update_many (update_hook s user u)
alone s user (replace_one f) = replace_one (or_empty (replace_hook s user (some f)))
alone s user other_operation = other_operation

map-same : {A : Type 0} (f : A → A) (same : (x : A) → f x ≡ x) (xs : List A) → map f xs ≡ xs
map-same f same [] = refl
map-same f same (x ∷ xs) = rw (same x, map-same f same xs) refl

map-agree :
    {A B : Type 0} (f g : A → B) (agree : (x : A) → f x ≡ g x) (xs : List A) → map f xs ≡ map g xs
map-agree f g agree [] = refl
map-agree f g agree (x ∷ xs) = rw (agree x, map-agree f g agree xs) refl

-- A hook on a list is the hook on each of its elements.
by_user-map :
    {A : Type 0} (user : Option Text) (hook : Text → A → A) (xs : List A)
    → by_user user (λ id. map (hook id)) xs ≡ map (by_user user hook) xs
unfolding by_user
by_user-map none hook xs = sym (map-same (by_user none hook) (λ x. refl) xs)
by_user-map (some id) hook xs = elim (Bool-cases (id == text "")) [
  | inl empty ↦
      rw (empty)
        (sym (map-same (by_user (some id) hook) (λ x. unfold by_user in rw (empty) refl) xs))
  | inr given ↦
      rw (given)
        (map-agree (hook id) (by_user (some id) hook) (λ x. unfold by_user in rw (given) refl) xs)
]

by_user-eq :
    {A B : Type 0} (user : Option Text) (hook : Text → A → A) (hook_in : Text → B → B)
    (wrap : A → B) (agree : (id : Text) (x : A) → hook_in id (wrap x) ≡ wrap (hook id x)) (x : A)
    → by_user user hook_in (wrap x) ≡ wrap (by_user user hook x)
unfolding by_user
by_user-eq none hook hook_in wrap agree x = refl
by_user-eq (some id) hook hook_in wrap agree x = elim (Bool-cases (id == text "")) [
  | inl empty ↦ rw (empty) refl
  | inr given ↦ rw (given) (agree id x)
]

by_user-same :
    {A : Type 0} (user : Option Text) (x : A) (hook : Text → A → A)
    (same : (id : Text) → hook id x ≡ x)
    → by_user user hook x ≡ x
unfolding by_user
by_user-same none x hook same = refl
by_user-same (some id) x hook same = elim (Bool-cases (id == text "")) [
  | inl empty ↦ rw (empty) refl
  | inr given ↦ rw (given) (same id)
]

module _ (s : Schema) (user : Option Text) where
  save-stamped : (f : Fields) → save s user true f ≡ by_user user (stamp_document s) f
  unfolding save stamp_document
  save-stamped f = elim (Bool-cases s.has_created_by) [
    | inl created ↦ rw (created) refl
    | inr bare ↦ rw (bare) refl
  ]

  update_hook-registered :
      (updated : s.has_updated_by ≡ true) (u : Update)
      → update_hook s user (some u) ≡ some (by_user user (stamp_update s) u)
  unfolding update_hook
  update_hook-registered updated u = rw (updated) refl

  replace_hook-registered :
      (updated : s.has_updated_by ≡ true) (f : Fields)
      → replace_hook s user (some f)
        ≡ some (by_user user (λ id d. fill_creator s.has_created_by id (put_updater true id d)) f)
  unfolding replace_hook
  replace_hook-registered updated f = rw (updated) refl

  operation-alone :
      (updated : s.has_updated_by ≡ true) (op : Operation)
      → by_user user (stamp_operation s) op ≡ alone s user op
  unfolding alone stamp_operation or_empty
  operation-alone updated (insert_one f) = rw (save-stamped f) (
      by_user-eq user (stamp_document s) (stamp_operation s) insert_one
        (λ id x. unfold stamp_operation in refl) f)
  operation-alone updated (update_one none) =
      unfold update_hook in
      by_user-same user (update_one none) (stamp_operation s) (λ id. unfold stamp_operation in refl)
  operation-alone updated (update_one (some u)) = rw (update_hook-registered updated u) (
      by_user-eq user (stamp_update s) (stamp_operation s) (λ v. update_one (some v))
        (λ id x. unfold stamp_operation in refl) u)
  operation-alone updated (update_many none) =
      unfold update_hook in
      by_user-same user (update_many none) (stamp_operation s)
        (λ id. unfold stamp_operation in refl)
  operation-alone updated (update_many (some u)) = rw (update_hook-registered updated u) (
      by_user-eq user (stamp_update s) (stamp_operation s) (λ v. update_many (some v))
        (λ id x. unfold stamp_operation in refl) u)
  operation-alone updated (replace_one f) = rw (replace_hook-registered updated f) (
      by_user-eq user (λ id d. fill_creator s.has_created_by id (put_updater true id d))
        (stamp_operation s) replace_one (λ id x. unfold stamp_operation in rw (updated) refl) f)
  operation-alone updated other_operation =
      by_user-same user other_operation (stamp_operation s) (λ id. unfold stamp_operation in refl)

  -- For a schema with updatedBy, bulkWrite does to every operation what the hook of its single request
  -- does, and insertMany does to every document what save does to a new one.
  pub bulk_write-alone :
      (updated : s.has_updated_by ≡ true) (ops : List Operation) (docs : List Fields)
      → (bulk_write s user ops ≡ map (alone s user) ops)
        × (insert_many s user docs ≡ map (save s user true) docs)
  unfolding bulk_write insert_many
  bulk_write-alone updated ops docs = (
    by_user-map user (stamp_operation s) ops
        ∙ map-agree (by_user user (stamp_operation s)) (alone s user) (operation-alone updated) ops,
    by_user-map user (stamp_document s) docs
        ∙ map-agree (by_user user (stamp_document s)) (save s user true) (λ f. sym (save-stamped f))
            docs,
  )
