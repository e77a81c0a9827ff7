-- ===== src/Migrate/Tests.antt =====
-- The theorems on migrations at concrete inputs.
use Runner.{ends_with, timestamp_of}
use nest_server.Migrate.Lock.{step, World, LockDoc, Action, proceed, trying, running, run}
use nest_server.Migrate.Lock.Turns.{Works}
use nest_server.Migrate.Lock.Progress.{is_lock_past, insist, run-insist}
use nest_server.Migrate.Store.{load_async, recorded, MigrationRecord}
use nest_server.Prelude.{
  filter, includes, text_beq, ℕ, ◌+◌, ◌-◌, ◌≡◌, refl, true, false, none, some, List, [], ◌∷◌, ◌++◌,
  map, arith, Text, text, text_eq,
}
use nest_server.Migrate.Lock.Fits.{holds}
use nest_server.Migrate.Lock.Exclusive.{start, run-exclusive}
use nest_server.Migrate.Runner.{
  Environment, Module, MigrationFile, record_of, pending, load_migration_files, run_up, down,
  migration_id, default_migration_file_pattern,
}
use nest_server.Migrate.Runner as Runner
use nest_server.Migrate.Runner.Identity.{migration_id-extension}
use nest_server.Migrate.Runner.Resume.{
  Holds, applied, remaining, first_failure, run_up-resumes, run_up-run_up,
}
use nest_server.Migrate.Runner.RollBack.{down-run_up}

-- A lock that process 9 left behind.
abbrev left_behind : LockDoc
left_behind = record { id = 5; owner = some 9; acquired_at = some 0 }

-- Process 1 breaks it while process 2 arrives.
abbrev takeover : List Action
takeover =
    proceed 1 0
    ∷ proceed 1 0
    ∷ proceed 1 0
    ∷ proceed 1 0
    ∷ proceed 2 0
    ∷ proceed 1 0
    ∷ proceed 2 0
    ∷ []

works_1 : (run takeover (start 70000 (some left_behind))).phase 1 ≡ running 70000
unfolding run step start
works_1 = refl

run-exclusive_example :
    ◌≡◌ {A = ℕ} 1 1 × (holds (run takeover (start 70000 (some left_behind))).lock 1 70000 ≡ true)
unfolding run step start
run-exclusive_example =
    run-exclusive 70000 (some left_behind) takeover 1 1 70000 70000 works_1 works_1 (omega arith)
      (omega arith)

abbrev waiting : World
waiting = record { now = 100; next_id = 0; lock = some left_behind; phase = λ process. trying 900 }

run-insist_example : Works 1 (run (insist 1 60001) waiting)
unfolding is_lock_past
run-insist_example = run-insist 1 60001 900 waiting refl refl (omega arith) (omega arith)

migration_id-extension_example :
    (migration_id (text "1-a" ++ text ".ts") ≡ text "1-a")
    × (migration_id (text "1-a" ++ text ".js") ≡ text "1-a")
migration_id-extension_example = migration_id-extension (text "1-a")

abbrev first_ts : Text
first_ts = text "1-a.ts"

abbrev second_js : Text
second_js = text "2-b.js"

-- A database that counts the migrations that were run on it.
abbrev environment : Environment ℕ
environment = record {
  now = 0;
  strict = false;
  pattern = default_migration_file_pattern;
  directory = some (first_ts ∷ second_js ∷ []);
  sort = λ names. names;
  require = λ name. record { has_up = true; has_down = true };
  up = λ name database. (database + 1, true);
  down = λ name database. (database - 1, true);
}

-- The first migration ran as JavaScript.
abbrev before : List MigrationRecord
before = record { timestamp = 1; title = text "1-a.js" } ∷ []

abbrev world : Runner.World ℕ
world = record { states = record { last_run = none; migrations = before } ∷ []; database = 1 }

world-Holds : Holds world.states before
unfolding load_async recorded
world-Holds = (some (record { last_run = none; migrations = before }), refl, refl)

abbrev second : MigrationFile
second = record { timestamp = 2; title = second_js; has_down = true }

only_second : pending (load_migration_files environment) before ≡ second ∷ []
unfolding pending filter load_migration_files default_migration_file_pattern ends_with text text_beq
    includes migration_id timestamp_of
only_second = refl

run_up-resumes_example :
    Holds (run_up environment world).0.states (
      before
      ++ map record_of (applied environment (pending (load_migration_files environment) before) 1))
    × ((run_up environment world).1
        ≡ first_failure
            (remaining environment (pending (load_migration_files environment) before) 1))
    × (pending (load_migration_files environment) (
          before
          ++ map record_of
              (applied environment (pending (load_migration_files environment) before) 1))
        ≡ remaining environment (pending (load_migration_files environment) before) 1)
run_up-resumes_example = run_up-resumes environment world before refl world-Holds

run_up-run_up_example :
    run_up environment (run_up environment world).0 ≡ ((run_up environment world).0, none)
unfolding run_up load_async filter recorded includes default_migration_file_pattern ends_with text
    text_beq migration_id
run_up-run_up_example = run_up-run_up environment world before refl world-Holds refl

down-run_up_example :
    Holds (down environment (run_up environment world).0).0.states before
    × ((down environment (run_up environment world).0).1 ≡ none)
down-run_up_example =
    down-run_up environment world before second refl world-Holds only_second refl refl refl
