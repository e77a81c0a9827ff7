-- ===== src/Migrate/Runner/Resume.antt =====
-- What a run leaves behind, and what a second run does.
use mathlib.Core.List.{append_assoc, append-nil}
use mathlib.Core.Path.{subst}
use nest_server.Prelude.{
  ◌≡◌, refl, sym, ap, ◌∙◌, true, false, not, ◌||◌, List, [], ◌∷◌, ◌++◌, map, Text, text_eq, arith,
  if◌then◌else◌, filter, includes, Option, none, some, Bool-cases, inl, inr, is_empty,
}
use nest_server.Migrate.Store.{
  MigrationSet, MigrationRecord, loaded, load_async, save_async, recorded,
}
use nest_server.Migrate.Runner.{
  MigrationFile, id_of, ids, record_of, Environment, World, Failure, failed, load_migration_files,
  pending, missing, remember, run_one, run_pending, run_up,
}
use nest_server.Migrate.Runner.Distinct.{
  is_distinct, is_among, filter_rest, is_distinct-filter, load_migration_files-is_distinct,
}

pub load_async-save_async :
    (set : MigrationSet) (states : List MigrationSet) (state : Option MigrationSet)
    → load_async states ≡ loaded state
    → load_async (save_async set states) ≡ loaded (some set)
unfolding load_async save_async
load_async-save_async set [] state h = refl
load_async-save_async set (old ∷ []) state h = refl
load_async-save_async set (old ∷ other ∷ sets) state h = cc h

-- The state holds these records, and can be loaded.
abbrev pub Holds : List MigrationSet → List MigrationRecord → Type 0
Holds states records =
    (state : Option MigrationSet) × (load_async states ≡ loaded state) × (recorded state ≡ records)

remember_lem :
    {D : Type 0} (file : MigrationFile) (w : World D) (records : List MigrationRecord)
    → Holds w.states records
    → (next : World D) × (remember file w ≡ (next, none))
      × Holds next.states (records ++ (record_of file ∷ []))
      × (next.database ≡ w.database)
unfolding remember recorded
remember_lem file w records (state, can_load, same) =
    let set : MigrationSet = record {
      last_run = some file.title;
      migrations = recorded state ++ (record_of file ∷ []);
    } in
    (
      record w { states = save_async set w.states },
      rw (can_load, remember) refl,
      (some set, load_async-save_async set w.states state can_load, rw same refl),
      refl,
    )

unfoldable pub first_failure : List MigrationFile → Option Failure
first_failure [] = none
first_failure (file ∷ files) = some (failed file.title)

ids-append :
    (records : List MigrationRecord) (done : List MigrationFile) (id : Text)
    → includes (ids (records ++ map record_of done)) id
      ≡ includes (ids records) id || includes (map id_of done) id
unfolding includes
ids-append [] [] id = refl
ids-append [] (file ∷ done) id = ground (arith, ids-append [] done id)
ids-append (r ∷ records) done id = ground (arith, ids-append records done id)

pending-append :
    (files : List MigrationFile) (records : List MigrationRecord) (done : List MigrationFile)
    → pending files (records ++ map record_of done)
      ≡ filter (λ file. not (is_among (map id_of done) file)) (pending files records)
unfolding pending filter
pending-append [] records done = refl
pending-append (file ∷ files) records done =
    ground (arith, pending-append files records done, ids-append records done (id_of file))

-- Once the first of the pending migrations are recorded, the others are pending.
pending_rest :
    (files : List MigrationFile) (records : List MigrationRecord) (done rest : List MigrationFile)
    → is_distinct files ≡ true
    → pending files records ≡ done ++ rest
    → pending files (records ++ map record_of done) ≡ rest
unfolding pending
pending_rest files records done rest distinct split =
    rw (pending-append files records done, split)
      (filter_rest done rest
        (subst (λ files. is_distinct files ≡ true) split (is_distinct-filter _ files distinct)))

module _ {D : Type 0} (env : Environment D) where
  -- The migrations whose `up` returns, up to the first that throws.
  unfoldable pub applied : List MigrationFile → D → List MigrationFile
  applied [] database = []
  applied (file ∷ files) database =
      let (next, returns) = env.up file.title database in
      let rest = applied files next in if returns then file ∷ rest else []

  -- The migrations from the first that throws.
  unfoldable pub remaining : List MigrationFile → D → List MigrationFile
  remaining [] database = []
  remaining (file ∷ files) database =
      let (next, returns) = env.up file.title database in
      let rest = remaining files next in if returns then rest else file ∷ files

  applied-remaining :
      (files : List MigrationFile) (database : D)
      → applied files database ++ remaining files database ≡ files
  unfolding applied remaining
  applied-remaining [] database = refl
  applied-remaining (file ∷ files) database =
      let (next, returns) = env.up file.title database in
      ground (arith, applied-remaining files next)

  run_one-returns :
      (file : MigrationFile) (w : World D) (records : List MigrationRecord)
      → Holds w.states records
      → (env.up file.title w.database).1 ≡ true
      → (next : World D) × (run_one env file w ≡ (next, none))
        × Holds next.states (records ++ (record_of file ∷ []))
        × (next.database ≡ (env.up file.title w.database).0)
  unfolding run_one
  run_one-returns file w records holds returns =
      let (next, same, kept, database) =
        remember_lem file (record w { database = (env.up file.title w.database).0 }) records
          holds in
      (next, rw returns same, kept, database)

  run_pending-step :
      (file : MigrationFile) (files : List MigrationFile) (w next : World D)
      (failure : Option Failure)
      → run_one env file w ≡ (next, failure)
      → run_pending env (file ∷ files) w
        ≡ elim failure [ none ↦ run_pending env files next | some reason ↦ (next, some reason) ]
  unfolding run_pending
  run_pending-step file files w next failure e =
      ap
        (λ (r : World D × Option Failure). elim r.1 as (λ x. World D × Option Failure) [
          | none ↦ run_pending env files r.0
          | some reason ↦ (r.0, some reason)
        ])
        e

  steps-returns :
      (file : MigrationFile) (files : List MigrationFile) (database next : D)
      → (env.up file.title database).1 ≡ true
      → next ≡ (env.up file.title database).0
      → (applied (file ∷ files) database ≡ file ∷ applied files next)
        × (remaining (file ∷ files) database ≡ remaining files next)
  unfolding applied remaining
  steps-returns file files database next returns same = rw (same, returns) (refl, refl)

  steps-throws :
      (file : MigrationFile) (files : List MigrationFile) (database : D)
      → (env.up file.title database).1 ≡ false
      → (applied (file ∷ files) database ≡ []) × (remaining (file ∷ files) database ≡ file ∷ files)
  unfolding applied remaining
  steps-throws file files database throws = rw throws (refl, refl)

  run_one-throws :
      (file : MigrationFile) (w : World D)
      → (env.up file.title w.database).1 ≡ false
      → run_one env file w
        ≡ (record w { database = (env.up file.title w.database).0 }, some (failed file.title))
  unfolding run_one
  run_one-throws file w throws = rw throws refl

  run_pending_lem :
      (files : List MigrationFile) (w : World D) (records : List MigrationRecord)
      → Holds w.states records
      → Holds
          (run_pending env files w).0.states
          (records ++ map record_of (applied files w.database))
        × ((run_pending env files w).1 ≡ first_failure (remaining files w.database))
  unfolding first_failure
  run_pending_lem [] w records holds =
      unfold run_pending applied remaining in (rw (append-nil records) holds, refl)
  run_pending_lem (file ∷ files) w records holds =
      elim (Bool-cases ((env.up file.title w.database).1)) [
        | inl returns ↦
            let (next, same, kept, database) = run_one-returns file w records holds returns in
            let (now_applied, now_remaining) =
              steps-returns file files w.database next.database returns database in
            let ih = run_pending_lem files next (records ++ (record_of file ∷ [])) kept in
            rw
              (
                run_pending-step file files w next none same,
                now_applied,
                now_remaining,
                sym (
                    append_assoc records (record_of file ∷ [])
                      (map record_of (applied files next.database))),
              )
              ih
        | inr throws ↦
            let (none_applied, all_remain) = steps-throws file files w.database throws in
            rw
              (
                run_pending-step file files w _ _ (run_one-throws file w throws),
                none_applied,
                all_remain,
                append-nil records,
              )
              (holds, refl)
      ]

  run_up_lem :
      (w : World D) (records : List MigrationRecord)
      → env.strict ≡ false
      → Holds w.states records
      → run_up env w ≡ run_pending env (pending (load_migration_files env) records) w
  unfolding run_up
  run_up_lem w records tolerant (state, can_load, same) =
      elim (Bool-cases (not (is_empty (missing (load_migration_files env) records)))) [
        | inl e ↦ rw (can_load, run_up, same, e, tolerant) refl
        | inr e ↦ rw (can_load, run_up, same, e) refl
      ]

  -- If the state can be loaded and the runner is not strict, a run records, after what was recorded,
  -- the pending migrations up to the first whose `up` throws, in the order of the files. It fails
  -- with that one, or succeeds if there is none, and afterwards exactly the migrations from that
  -- one on are pending.
  pub run_up-resumes :
      (w : World D) (records : List MigrationRecord)
      → env.strict ≡ false
      → Holds w.states records
      → Holds (run_up env w).0.states (
          records
          ++ map record_of (applied (pending (load_migration_files env) records) w.database))
        × ((run_up env w).1
            ≡ first_failure (remaining (pending (load_migration_files env) records) w.database))
        × (pending (load_migration_files env) (
              records
              ++ map record_of (applied (pending (load_migration_files env) records) w.database))
            ≡ remaining (pending (load_migration_files env) records) w.database)
  run_up-resumes w records tolerant holds =
      let files = pending (load_migration_files env) records in
      let (kept, failure) = run_pending_lem files w records holds in
      rw (run_up_lem w records tolerant holds) (
        kept,
        failure,
        pending_rest (load_migration_files env) records (applied files w.database)
            (remaining files w.database) (load_migration_files-is_distinct env)
            (sym (applied-remaining files w.database)),
      )

  no_failure : (files : List MigrationFile) → first_failure files ≡ none → files ≡ []
  unfolding first_failure
  no_failure [] h = refl
  no_failure (file ∷ files) h = cc h

  -- With a runner that is not strict, and a state that can be loaded: after a run that succeeded a second one, which finds the state that the first one left, succeeds
  -- and changes nothing: it neither writes the state nor runs a migration.
  pub run_up-run_up :
      (w : World D) (records : List MigrationRecord)
      → env.strict ≡ false
      → Holds w.states records
      → (run_up env w).1 ≡ none
      → run_up env (run_up env w).0 ≡ ((run_up env w).0, none)
  run_up-run_up w records tolerant holds succeeds =
      let (kept, failure, left) = run_up-resumes w records tolerant holds in
      let nothing = left ∙ no_failure _ (sym failure ∙ succeeds) in
      rw (run_up_lem (run_up env w).0 _ tolerant kept, nothing) (unfold run_pending in refl)
