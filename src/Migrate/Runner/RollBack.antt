-- ===== src/Migrate/Runner/RollBack.antt =====
-- A run and the rollback after it.
use mathlib.Core.Path.{subst}
use nest_server.Prelude.{
  ◌≡◌, refl, ap, ◌∙◌, Bool, true, false, List, [], ◌∷◌, ◌++◌, map, text_eq, arith, if◌then◌else◌,
  filter, includes, none, some, Bool-cases, inl, inr, beq_refl, ◌==◌, text_beq_iff,
}
use nest_server.Migrate.Store.{MigrationRecord, recorded}
use nest_server.Migrate.Runner.{
  MigrationFile, migration_id, id_of, record_of, Environment, World, load_migration_files, pending,
  run_up, down, down_from, roll_back, find_file, split_last, last_title,
}
use nest_server.Migrate.Runner.Distinct.{is_distinct, is_among, load_migration_files-is_distinct}
use nest_server.Migrate.Runner.Resume.{Holds, applied, load_async-save_async, run_up-resumes}

among_filtered :
    (p : MigrationFile → Bool) (files rest : List MigrationFile) (file : MigrationFile)
    → filter p files ≡ file ∷ rest
    → is_among (map id_of files) file ≡ true
unfolding filter includes
among_filtered p [] rest file h = cc h
among_filtered p (other ∷ files) rest file h = elim (Bool-cases (p other)) [
  | inl passes ↦
      let same : other ∷ filter p files ≡ file ∷ rest =
        subst (λ b. (if b then other ∷ filter p files else filter p files) ≡ file ∷ rest) passes
          h in
      let first : other ≡ file = cc same in rw (first, beq_refl (id_of file)) refl
  | inr fails ↦
      let same : filter p files ≡ file ∷ rest =
        subst (λ b. (if b then other ∷ filter p files else filter p files) ≡ file ∷ rest) fails h in
      ground (arith, among_filtered p files rest file same)
]

split_last-append :
    (records : List MigrationRecord) (first last : MigrationRecord)
    → split_last first (records ++ (last ∷ [])) ≡ (first ∷ records, last)
unfolding split_last
split_last-append [] first last = refl
split_last-append (r ∷ records) first last = rw (split_last-append records r last) refl

found :
    (p : MigrationFile → Bool) (files rest : List MigrationFile) (file : MigrationFile)
    → is_distinct files ≡ true
    → filter p files ≡ file ∷ rest
    → find_file (id_of file) files ≡ some file
unfolding filter find_file is_distinct
found p [] rest file distinct h = cc h
found p (other ∷ files) rest file distinct h = elim (Bool-cases (p other)) [
  | inl passes ↦
      let same : other ∷ filter p files ≡ file ∷ rest =
        subst (λ b. (if b then other ∷ filter p files else filter p files) ≡ file ∷ rest) passes
          h in
      let first : other ≡ file = cc same in rw (first, beq_refl (id_of file)) refl
  | inr fails ↦
      let same : filter p files ≡ file ∷ rest =
        subst (λ b. (if b then other ∷ filter p files else filter p files) ≡ file ∷ rest) fails h in
      let here = among_filtered p files rest file same in
      let e : (id_of other == id_of file) ≡ false = elim (Bool-cases (id_of other == id_of file)) [
        | inl equal ↦
            let among : is_among (map id_of files) other ≡ true =
              rw ((text_beq_iff (id_of other) (id_of file)).0 equal) here in
            ground (arith, among, distinct)
        | inr different ↦ different
      ] in
      rw e (found p files rest file (ground (arith, distinct)) same)
]

module _ {D : Type 0} (env : Environment D) where
  down_from-append :
      (records : List MigrationRecord) (last : MigrationRecord) (w : World D)
      → down_from env (records ++ (last ∷ [])) w
        ≡ roll_back env records last
            (find_file (migration_id last.title) (load_migration_files env))
            w
  unfolding down_from
  down_from-append [] last w = unfold split_last in refl
  down_from-append (first ∷ records) last w =
      rw (down_from, split_last-append records first last) refl

  down_lem :
      (w : World D) (records : List MigrationRecord)
      → Holds w.states records
      → down env w ≡ down_from env records w
  unfolding down
  down_lem w records (state, can_load, same) = rw (can_load, down, same) refl

  roll_back_lem :
      (records : List MigrationRecord) (last : MigrationRecord) (file : MigrationFile) (w : World D)
      (before : List MigrationRecord)
      → file.has_down ≡ true
      → (env.down file.title w.database).1 ≡ true
      → Holds w.states before
      → Holds (roll_back env records last (some file) w).0.states records
        × ((roll_back env records last (some file) w).1 ≡ none)
  unfolding roll_back recorded
  roll_back_lem records last file w before has_down returns (state, can_load, same) =
      rw (has_down, returns)
        (
          (
            some (record { last_run = last_title records; migrations = records }),
            load_async-save_async _ w.states state can_load,
            refl,
          ),
          refl,
        )

  applied_one :
      (file : MigrationFile) (database : D)
      → (env.up file.title database).1 ≡ true
      → applied env (file ∷ []) database ≡ file ∷ []
  unfolding applied
  applied_one file database ups = rw ups refl

  -- With a runner that is not strict, and a state that can be loaded: if one migration is pending, its `up` returns, its module has a `down` and that returns too, then
  -- a run followed by a rollback succeeds, and the state holds the records it held before the run.
  pub down-run_up :
      (w : World D) (records : List MigrationRecord) (file : MigrationFile)
      → env.strict ≡ false
      → Holds w.states records
      → pending (load_migration_files env) records ≡ file ∷ []
      → (env.up file.title w.database).1 ≡ true
      → file.has_down ≡ true
      → (env.down file.title (run_up env w).0.database).1 ≡ true
      → Holds (down env (run_up env w).0).0.states records × ((down env (run_up env w).0).1 ≡ none)
  unfolding filter pending
  down-run_up w records file tolerant holds one ups has_down downs =
      let (kept, failure, left) = run_up-resumes env w records tolerant holds in
      let kept_one : Holds (run_up env w).0.states (records ++ (record_of file ∷ [])) =
        subst (λ files. Holds (run_up env w).0.states (records ++ map record_of files))
          (ap (λ files. applied env files w.database) one ∙ applied_one file w.database ups) kept in
      rw
        (
          down_lem (run_up env w).0 _ kept_one,
          down_from-append records (record_of file) (run_up env w).0,
          found _ (load_migration_files env) [] file (load_migration_files-is_distinct env) one,
        )
        (roll_back_lem records (record_of file) file (run_up env w).0 _ has_down downs kept_one)
