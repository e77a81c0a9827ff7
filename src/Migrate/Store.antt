-- ===== src/Migrate/Store.antt =====
-- The state of the migrations (loadAsync and saveAsync of
-- src/core/modules/migrate/mongo-state-store.ts), over the documents of the collection.
use nest_server.Prelude.{ℕ, Option, none, some, List, [], ◌∷◌, Text}

pub record MigrationRecord : Type 0 where
  pub timestamp : ℕ
  pub title : Text

pub record MigrationSet : Type 0 where
  pub last_run : Option Text
  pub migrations : List MigrationRecord

-- What is loaded: a set, or none where there is no document, or the refusal of several.
pub data Loaded : Type 0 where
  loaded : Option MigrationSet → Loaded
  several : Loaded

unfoldable pub load_async : List MigrationSet → Loaded
load_async [] = loaded none
load_async (set ∷ []) = loaded (some set)
load_async (set ∷ other ∷ sets) = several

-- replaceOne({}, set, { upsert: true })
unfoldable pub save_async : MigrationSet → List MigrationSet → List MigrationSet
save_async set [] = set ∷ []
save_async set (old ∷ sets) = set ∷ sets

-- `state.migrations || []`
unfoldable pub recorded : Option MigrationSet → List MigrationRecord
recorded none = []
recorded (some set) = set.migrations
