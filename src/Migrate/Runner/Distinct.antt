-- ===== src/Migrate/Runner/Distinct.antt =====
-- The ids of the files that are loaded.
use nest_server.Prelude.{
  ◌≡◌, refl, Bool, true, false, not, ◌&&◌, List, [], ◌∷◌, ◌++◌, map, Text, text_eq, ◌==◌, arith,
  filter, includes, all, beq_refl, filter_of_all, filter-not_of_all, Option, none, some,
  text_beq_iff,
}
use nest_server.Migrate.Runner.{
  MigrationFile, migration_id, id_of, Environment, load_from, files_of, load_migration_files,
}

abbrev pub is_among : List Text → MigrationFile → Bool
is_among ids file = includes ids (id_of file)

-- All ids are different.
unfoldable pub is_distinct : List MigrationFile → Bool
is_distinct [] = true
is_distinct (file ∷ files) =
    let rest = is_distinct files in not (is_among (map id_of files) file) && rest

all_mono :
    (p q : MigrationFile → Bool) (files : List MigrationFile)
    → ((file : MigrationFile) → p file ≡ true → q file ≡ true)
    → all p files ≡ true
    → all q files ≡ true
unfolding all
all_mono p q [] mono h = refl
all_mono p q (file ∷ files) mono h = ground (arith, mono file, all_mono p q files mono)

-- A file whose id is not the given one, throughout the list.
all-fresh :
    (file : MigrationFile) (files : List MigrationFile)
    → is_among (map id_of files) file ≡ false
    → all (λ other. not (id_of file == id_of other)) files ≡ true
unfolding all includes
all-fresh file [] h = refl
all-fresh file (other ∷ files) h = ground (
  arith,
  all-fresh file files,
  text_beq_iff (id_of file) (id_of other),
  text_beq_iff (id_of other) (id_of file),
)

fresh-all :
    (id : Text) (files : List MigrationFile)
    → all (λ other. not (id == id_of other)) files ≡ true
    → includes (map id_of files) id ≡ false
unfolding all includes
fresh-all id [] h = refl
fresh-all id (other ∷ files) h =
    ground (arith, fresh-all id files, text_beq_iff id (id_of other), text_beq_iff (id_of other) id)

all_own : (files : List MigrationFile) → all (is_among (map id_of files)) files ≡ true
unfolding all includes
all_own [] = refl
all_own (file ∷ files) =
    let rest =
      all_mono (is_among (map id_of files)) (is_among (map id_of (file ∷ files))) files
        (λ other h. ground (arith, h)) (all_own files) in
    ground (arith, rest, beq_refl (id_of file))

all_and :
    (p q : MigrationFile → Bool) (files : List MigrationFile)
    → all p files ≡ true
    → all q files ≡ true
    → all (λ file. p file && q file) files ≡ true
unfolding all
all_and p q [] hp hq = refl
all_and p q (file ∷ files) hp hq = ground (arith, all_and p q files)

all-append :
    (p : MigrationFile → Bool) (done rest : List MigrationFile)
    → all p (done ++ rest) ≡ true
    → all p rest ≡ true
unfolding all
all-append p [] rest h = h
all-append p (file ∷ done) rest h = ground (arith, all-append p done rest)

all_free : (files : List MigrationFile) → all (λ file. not (is_among [] file)) files ≡ true
unfolding all includes
all_free [] = refl
all_free (file ∷ files) = all_free files

-- Of distinct files, none of the rest is among those that are done.
all_rest :
    (done rest : List MigrationFile)
    → is_distinct (done ++ rest) ≡ true
    → all (λ file. not (is_among (map id_of done) file)) rest ≡ true
unfolding is_distinct includes
all_rest [] rest h = all_free rest
all_rest (file ∷ done) rest h =
    all_mono (λ other. not (id_of file == id_of other) && not (is_among (map id_of done) other)) _
      rest (λ other k. ground (arith, k))
      (all_and _ _ rest (all-append _ done rest (all-fresh file (done ++ rest) (ground (arith, h))))
        (all_rest done rest (ground (arith, h))))

filter-append :
    (p : MigrationFile → Bool) (xs ys : List MigrationFile)
    → filter p (xs ++ ys) ≡ filter p xs ++ filter p ys
unfolding filter
filter-append p [] ys = refl
filter-append p (x ∷ xs) ys = ground (arith, filter-append p xs ys)

-- Without those that are done, the rest is left.
pub filter_rest :
    (done rest : List MigrationFile)
    → is_distinct (done ++ rest) ≡ true
    → filter (λ file. not (is_among (map id_of done) file)) (done ++ rest) ≡ rest
filter_rest done rest h =
    rw
      (
        filter-append (λ file. not (is_among (map id_of done) file)) done rest,
        filter-not_of_all (is_among (map id_of done)) done (all_own done),
      )
      (filter_of_all _ rest (all_rest done rest h))

all-filter_sub :
    (p q : MigrationFile → Bool) (files : List MigrationFile)
    → all q files ≡ true
    → all q (filter p files) ≡ true
unfolding all filter
all-filter_sub p q [] h = refl
all-filter_sub p q (file ∷ files) h = ground (arith, all-filter_sub p q files)

pub is_distinct-filter :
    (p : MigrationFile → Bool) (files : List MigrationFile)
    → is_distinct files ≡ true
    → is_distinct (filter p files) ≡ true
unfolding is_distinct filter
is_distinct-filter p [] h = refl
is_distinct-filter p (file ∷ files) h =
    let fresh = fresh-all (id_of file) (filter p files) (
      all-filter_sub p (λ other. not (id_of file == id_of other)) files
        (all-fresh file files (ground (arith, h)))) in
    ground (arith, fresh, is_distinct-filter p files)

module _ {D : Type 0} (env : Environment D) where
  load_from-fresh :
      (seen names : List Text)
      → all (λ file. not (is_among seen file)) (load_from env seen names) ≡ true
  unfolding load_from all
  load_from-fresh seen [] = refl
  load_from-fresh seen (name ∷ names) =
      let kept =
        all_mono (λ file. not (is_among (migration_id name ∷ seen) file))
          (λ file. not (is_among seen file)) _ (λ file h. unfold includes in ground (arith, h))
          (load_from-fresh (migration_id name ∷ seen) names) in
      ground (arith, kept, load_from-fresh seen names)

  load_from-is_distinct : (seen names : List Text) → is_distinct (load_from env seen names) ≡ true
  unfolding load_from is_distinct
  load_from-is_distinct seen [] = refl
  load_from-is_distinct seen (name ∷ names) =
      let fresh = fresh-all (migration_id name) (load_from env (migration_id name ∷ seen) names) (
        all_mono (λ file. not (is_among (migration_id name ∷ seen) file)) _ _
          (λ file h. unfold includes in ground (arith, h))
          (load_from-fresh (migration_id name ∷ seen) names)) in
      ground (
        arith,
        fresh,
        load_from-is_distinct seen names,
        load_from-is_distinct (migration_id name ∷ seen) names,
      )

  pub load_migration_files-is_distinct : is_distinct (load_migration_files env) ≡ true
  unfolding load_migration_files files_of is_distinct
  load_migration_files-is_distinct = by_directory env.directory
    where
      by_directory : (names : Option (List Text)) → is_distinct (files_of env names) ≡ true
      by_directory none = refl
      by_directory (some names) = load_from-is_distinct [] _
