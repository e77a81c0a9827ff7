-- ===== src/Migrate/Runner.antt =====
-- The runner of the migrations (src/core/modules/migrate/migration-runner.ts). The directory, the sort
-- of names, the modules and what a migration does to the database are parameters; a module that
-- cannot be loaded is not modelled, nor the log lines and the connections that are closed afterwards.
pub mod Distinct
pub mod Resume
pub mod RollBack
pub mod Identity
use nest_server.Prelude.{
  ℕ, ◌+◌, ◌-◌, ◌*◌, ◌≡◌, Bool, true, false, not, ◌&&◌, ◌||◌, Option, none, some, List, [], ◌∷◌,
  ◌++◌, map, Text, text, text_eq, ◌==◌, ltb, leb, eqb, if◌then◌else◌, is_empty, filter, includes,
  length,
}
use nest_server.Migrate.Store.{
  MigrationRecord, MigrationSet, Loaded, loaded, several, load_async, save_async, recorded,
}

-- s ends with the suffix
unfoldable pub ends_with : Text → Text → Bool
ends_with [] suffix = is_empty suffix
ends_with (c ∷ s) suffix = c ∷ s == suffix || ends_with s suffix

-- /(?:(?<!\.d)\.ts|\.js)$/
unfoldable pub default_migration_file_pattern : Text → Bool
default_migration_file_pattern file =
    ends_with file (text ".ts") && not (ends_with file (text ".d.ts"))
    || ends_with file (text ".js")

-- title.replace(/\.(ts|js)$/, '')
unfoldable pub migration_id : Text → Text
migration_id [] = []
migration_id (c ∷ s) =
    let rest = migration_id s in if c ∷ s == text ".ts" || c ∷ s == text ".js" then [] else c ∷ rest

unfoldable pub is_digit : ℕ → Bool
is_digit c = leb b'0' c && leb c b'9'

-- file.match(/^(\d+)-/) and parseInt, once a digit was read
unfoldable pub parse_digits : ℕ → Text → Option ℕ
parse_digits value [] = none
parse_digits value (c ∷ s) =
    let rest = parse_digits (value * 10 + (c - b'0')) s in
    if is_digit c then rest else if eqb c b'-' then some value else none

unfoldable pub timestamp_of : ℕ → Text → ℕ
unfolding parse_digits is_digit
timestamp_of now [] = now
timestamp_of now (c ∷ s) =
    if is_digit c
    then elim (parse_digits (c - b'0') s) [ none ↦ now | some timestamp ↦ timestamp ]
    else now

pub record MigrationFile : Type 0 where
  pub timestamp : ℕ
  pub title : Text
  pub has_down : Bool

-- What a module exports.
pub record Module : Type 0 where
  pub has_up : Bool
  pub has_down : Bool

-- The directory, the modules, and what `up` and `down` do to a database: whether they return.
pub record Environment (D : Type 0) : Type 0 where
  pub now : ℕ
  pub strict : Bool
  pub pattern : Text → Bool
  -- the names in the directory; none where there is no directory
  pub directory : Option (List Text)
  pub sort : List Text → List Text
  pub require : Text → Module
  pub up : Text → D → D × Bool
  pub down : Text → D → D × Bool

pub record World (D : Type 0) : Type 0 where
  pub states : List MigrationSet
  pub database : D

pub data Failure : Type 0 where
  several_states : Failure
  strict_missing : List Text → Failure
  failed : Text → Failure
  file_not_found : Text → Failure
  no_down : Text → Failure

abbrev pub id_of : MigrationFile → Text
id_of file = migration_id file.title

abbrev pub record_of : MigrationFile → MigrationRecord
record_of file = record { timestamp = file.timestamp; title = file.title }

unfoldable pub find_file : Text → List MigrationFile → Option MigrationFile
find_file id [] = none
find_file id (file ∷ files) =
    let rest = find_file id files in if migration_id file.title == id then some file else rest

-- All but the last, and the last; `first` is the first of them.
unfoldable pub split_last :
    MigrationRecord → List MigrationRecord → List MigrationRecord × MigrationRecord
split_last first [] = ([], first)
split_last first (next ∷ records) =
    let (init, last) = split_last next records in (first ∷ init, last)

-- the title of the last record, if there is one
unfoldable pub last_title : List MigrationRecord → Option Text
unfolding split_last
last_title [] = none
last_title (first ∷ records) = some ((split_last first records).1.title)

pub record Status : Type 0 where
  pub completed : List Text
  pub missing : List Text
  pub pending : List Text

abbrev pub ids : List MigrationRecord → List Text
ids records = map (λ r. migration_id r.title) records

unfoldable pub missing : List MigrationFile → List MigrationRecord → List Text
missing files records =
    map (λ r. r.title)
      (filter (λ r. not (includes (map id_of files) (migration_id r.title))) records)

unfoldable pub pending : List MigrationFile → List MigrationRecord → List MigrationFile
pending files records = filter (λ file. not (includes (ids records) (id_of file))) files

-- saveAsync after a migration, on the state that is loaded again
unfoldable pub remember : {D : Type 0} → MigrationFile → World D → World D × Option Failure
remember file w = elim (load_async w.states) [
  | several ↦ (w, some several_states)
  | loaded state ↦ (
    record w {
      states =
          save_async
            (record {
              last_run = some file.title;
              migrations = recorded state ++ (record_of file ∷ []);
            })
            w.states;
    },
    none,
  )
]

module _ {D : Type 0} (env : Environment D) where
  -- The loop of loadMigrationFiles, with the ids that it has seen.
  unfoldable pub load_from : List Text → List Text → List MigrationFile
  load_from seen [] = []
  load_from seen (file ∷ files) =
      let skipped = load_from seen files in
      let kept = load_from (migration_id file ∷ seen) files in
      let found = env.require file in
      if includes seen (migration_id file)
      then skipped
      else if not found.has_up
      then skipped
      else record { timestamp = timestamp_of env.now file; title = file; has_down = found.has_down }
        ∷ kept

  unfoldable pub files_of : Option (List Text) → List MigrationFile
  unfolding load_from
  files_of none = []
  files_of (some names) = load_from [] (env.sort (filter env.pattern names))

  unfoldable pub load_migration_files : List MigrationFile
  unfolding files_of
  load_migration_files = files_of env.directory

  -- One round of the loop of runUp.
  unfoldable pub run_one : MigrationFile → World D → World D × Option Failure
  unfolding remember
  run_one file w =
      let (database, returns) = env.up file.title w.database in
      if returns
      then remember file (record w { database = database })
      else (record w { database = database }, some (failed file.title))

  unfoldable pub run_pending : List MigrationFile → World D → World D × Option Failure
  unfolding run_one
  run_pending [] w = (w, none)
  run_pending (file ∷ files) w =
      let (next, failure) = run_one file w in
      elim failure [ none ↦ run_pending files next | some reason ↦ (next, some reason) ]

  unfoldable pub run_up : World D → World D × Option Failure
  unfolding load_migration_files missing pending run_pending
  run_up w = elim (load_async w.states) [
    | several ↦ (w, some several_states)
    | loaded state ↦
        let files = load_migration_files in
        let gone = missing files (recorded state) in
        if not (is_empty gone) && env.strict
        then (w, some (strict_missing gone))
        else run_pending (pending files (recorded state)) w
  ]

  -- The rollback of one migration: its module's `down`, and the state without the last record.
  unfoldable pub roll_back :
      List MigrationRecord
      → MigrationRecord
      → Option MigrationFile
      → World D
      → World D × Option Failure
  unfolding last_title
  roll_back init last none w = (w, some (file_not_found last.title))
  roll_back init last (some file) w =
      let (database, returns) = env.down file.title w.database in
      let after : World D = record w { database = database } in
      if not file.has_down
      then (w, some (no_down last.title))
      else if not returns
      then (after, some (failed file.title))
      else (
        record after {
          states = save_async (record { last_run = last_title init; migrations = init }) w.states;
        },
        none,
      )

  unfoldable pub down_from : List MigrationRecord → World D → World D × Option Failure
  unfolding load_migration_files split_last find_file roll_back
  down_from [] w = (w, none)
  down_from (first ∷ records) w =
      let (init, last) = split_last first records in
      roll_back init last (find_file (migration_id last.title) load_migration_files) w

  unfoldable pub down : World D → World D × Option Failure
  unfolding down_from
  down w = elim (load_async w.states) [
    | several ↦ (w, some several_states)
    | loaded state ↦ down_from (recorded state) w
  ]

  -- none where the state cannot be loaded
  unfoldable pub status : World D → Option Status
  unfolding load_migration_files missing pending
  status w = elim (load_async w.states) [
    | several ↦ none
    | loaded state ↦
        let records = recorded state in
        some (record {
          completed = map (λ r. r.title) records;
          missing = missing load_migration_files records;
          pending = map (λ file. file.title) (pending load_migration_files records);
        })
  ]
