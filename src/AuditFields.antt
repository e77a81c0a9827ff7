-- ===== src/AuditFields.antt =====
-- The Mongoose plugin that fills in createdBy and updatedBy
-- (src/core/common/plugins/mongoose-audit-fields.plugin.ts). A hook is a function of what it may change:
-- the document, the update, the documents or operations. `user` is the id of the current user, where
-- there is one; an absent, null or empty value is `none` or the empty text. The rest of a document or an
-- update, which no hook reads or changes, is left out, and so are updates that are pipelines.
pub mod Stamped
pub mod Own
mod Tests
use nest_server.Prelude.{
  Bool, true, false, not, ◌&&◌, ◌||◌, Option, none, some, List, [], ◌∷◌, map, Text, text, text_eq,
  ◌==◌, if◌then◌else◌,
}
use mathlib.Core.Option

-- Which of the two fields the schema has
pub record Schema : Type 0 where
  pub has_created_by : Bool
  pub has_updated_by : Bool

pub record Fields : Type 0 where
  pub created_by : Option Text
  pub updated_by : Option Text

-- The fields of an update: at its top, in $set and in $setOnInsert
pub record Update : Type 0 where
  pub direct : Fields
  pub set : Option Fields
  pub set_on_insert : Option Fields

pub data Operation : Type 0 where
  insert_one : (document : Fields) → Operation
  update_one update_many : (update : Option Update) → Operation
  replace_one : (replacement : Fields) → Operation
  other_operation : Operation

abbrev pub no_fields : Fields
no_fields = record { created_by = none; updated_by = none }

unfoldable pub is_truthy : Option Text → Bool
is_truthy none = false
is_truthy (some t) = not (t == text "")

-- `$set?.['createdBy']`, and the same of $setOnInsert
unfoldable pub creator_in : Option Fields → Option Text
creator_in none = none
creator_in (some f) = f.created_by

unfoldable pub or_empty : Option Fields → Fields
or_empty none = no_fields
or_empty (some f) = f

-- `if (flag && !doc.createdBy) { doc.createdBy = id }`
unfoldable pub fill_creator : Bool → Text → Fields → Fields
unfolding is_truthy
fill_creator flag id f =
    if flag && not (is_truthy f.created_by) then record f { created_by = some id } else f

-- `if (flag) { doc.updatedBy = id }`
unfoldable pub put_updater : Bool → Text → Fields → Fields
put_updater flag id f = if flag then record f { updated_by = some id } else f

unfoldable pub put_updater_in_update : Bool → Text → Update → Update
unfolding put_updater
put_updater_in_update flag id u = record u {
  direct = put_updater flag id u.direct;
  set = Option.map (put_updater flag id) u.set;
}

unfoldable pub fill_creator_on_insert : Bool → Text → Update → Update
unfolding is_truthy creator_in or_empty fill_creator
fill_creator_on_insert flag id u =
    if flag && not (is_truthy u.direct.created_by) && not (is_truthy (creator_in u.set))
    then record u { set_on_insert = some (fill_creator true id (or_empty u.set_on_insert)) }
    else u

unfoldable pub stamp_update : Schema → Text → Update → Update
unfolding put_updater_in_update fill_creator_on_insert
stamp_update s id u =
    fill_creator_on_insert s.has_created_by id (put_updater_in_update s.has_updated_by id u)

unfoldable pub stamp_document : Schema → Text → Fields → Fields
unfolding fill_creator put_updater
stamp_document s id f = put_updater s.has_updated_by id (fill_creator s.has_created_by id f)

unfoldable pub stamp_operation : Schema → Text → Operation → Operation
unfolding stamp_document stamp_update fill_creator put_updater
stamp_operation s id (insert_one f) = insert_one (stamp_document s id f)
stamp_operation s id (update_one u) = update_one (Option.map (stamp_update s id) u)
stamp_operation s id (update_many u) = update_many (Option.map (stamp_update s id) u)
stamp_operation s id (replace_one f) =
    replace_one (fill_creator s.has_created_by id (put_updater s.has_updated_by id f))
stamp_operation s id other_operation = other_operation

-- `if (!currentUser?.id) return`, before what a hook does
unfoldable pub by_user : {A : Type 0} → Option Text → (Text → A → A) → A → A
by_user none hook x = x
by_user (some id) hook x = if id == text "" then x else hook id x

module _ (s : Schema) (user : Option Text) where
  -- pre save, of a document that is new or not
  unfoldable pub save : (is_new : Bool) → Fields → Fields
  unfolding by_user fill_creator put_updater
  save is_new f =
      by_user user
        (λ id d. put_updater s.has_updated_by id (fill_creator (s.has_created_by && is_new) id d)) f

  -- pre findOneAndUpdate, updateOne, updateMany: a hook of schemas that have updatedBy
  unfoldable pub update_hook : Option Update → Option Update
  unfolding by_user stamp_update
  update_hook none = none
  update_hook (some u) = if s.has_updated_by then some (by_user user (stamp_update s) u) else some u

  -- pre replaceOne, findOneAndReplace: a hook of schemas that have updatedBy
  unfoldable pub replace_hook : Option Fields → Option Fields
  unfolding by_user fill_creator put_updater
  replace_hook none = none
  replace_hook (some f) =
      if s.has_updated_by
      then some (by_user user (λ id d. fill_creator s.has_created_by id (put_updater true id d)) f)
      else some f

  -- pre insertMany, of an array
  unfoldable pub insert_many : List Fields → List Fields
  unfolding by_user stamp_document
  insert_many docs = by_user user (λ id. map (stamp_document s id)) docs

  -- pre bulkWrite
  unfoldable pub bulk_write : List Operation → List Operation
  unfolding by_user stamp_operation
  bulk_write ops = by_user user (λ id. map (stamp_operation s id)) ops
