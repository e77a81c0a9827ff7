-- ===== src/AuditFields/Tests.antt =====
-- The theorems on the audit fields plugin at concrete inputs.
use nest_server.AuditFields.{
  Schema, Fields, Operation, insert_one, update_one, replace_one, no_fields, bulk_write,
  insert_many, save,
}
use nest_server.Prelude.{◌≡◌, refl, true, none, some, List, [], ◌∷◌, map, Text, text, text_beq}
use nest_server.AuditFields.Stamped.{creator, creator_for, updaters, bulk_write-names}
use nest_server.AuditFields.Own.{alone, bulk_write-alone}

abbrev both : Schema
both = record { has_created_by = true; has_updated_by = true }

abbrev by_ann : Fields
by_ann = record { created_by = some (text "ann"); updated_by = some (text "ann") }

abbrev requests : List Operation
requests =
    insert_one no_fields
    ∷ insert_one by_ann
    ∷ update_one (some (record { direct = no_fields; set = some no_fields; set_on_insert = none }))
    ∷ update_one (some (record { direct = no_fields; set = none; set_on_insert = some by_ann }))
    ∷ replace_one no_fields
    ∷ []

abbrev bob : Text
bob = text "bob"

creators :
    map creator (bulk_write both (some bob) requests)
    ≡ some bob ∷ some (text "ann") ∷ some bob ∷ some (text "ann") ∷ some bob ∷ []
unfolding bulk_write creator text_beq text
creators = refl

bulk_write-names_example :
    (map creator (bulk_write both (some bob) requests) ≡ map (creator_for bob) requests)
    × (map updaters (bulk_write both (some bob) requests)
        ≡ map (λ op. map (λ _. some bob) (updaters op)) requests)
unfolding text_beq text
bulk_write-names_example = bulk_write-names both refl refl bob refl requests

bulk_write-alone_example :
    (bulk_write both (some bob) requests ≡ map (alone both (some bob)) requests)
    × (insert_many both (some bob) (no_fields ∷ by_ann ∷ [])
        ≡ map (save both (some bob) true) (no_fields ∷ by_ann ∷ []))
bulk_write-alone_example = bulk_write-alone both (some bob) refl requests (no_fields ∷ by_ann ∷ [])
