-- ===== src/Migrate/Runner/Identity.antt =====
-- The identity of a migration, and the extension of its file.
use nest_server.Prelude.{
  ◌≡◌, refl, ap, ◌<◌, false, [], ◌∷◌, ◌++◌, Text, text, text_beq, text_eq, text_beq_iff, arith,
  length, length-append, Bool-cases, inl, inr,
}
use nest_server.Migrate.Runner.{migration_id}

too_long :
    (s extension suffix : Text)
    → length suffix < length extension
    → text_beq (s ++ extension) suffix ≡ false
too_long s extension suffix less = elim (Bool-cases (text_beq (s ++ extension) suffix)) [
  | inl e ↦ absurd (
      omega
        (arith, ap length ((text_beq_iff (s ++ extension) suffix).0 e), length-append s extension))
  | inr e ↦ e
]

-- A migration written as `.ts` and the same compiled to `.js` have one id, the name without the
-- extension, whatever the name is.
pub migration_id-extension :
    (s : Text) → (migration_id (s ++ text ".ts") ≡ s) × (migration_id (s ++ text ".js") ≡ s)
unfolding migration_id text text_beq
migration_id-extension [] = (refl, refl)
migration_id-extension (c ∷ s) =
    let (ts, js) = migration_id-extension s in
    ground (
      arith,
      ts,
      js,
      too_long s (text ".ts") (text "ts"),
      too_long s (text ".ts") (text "js"),
      too_long s (text ".js") (text "ts"),
      too_long s (text ".js") (text "js"),
    )
