-- ===== src/Migrate/Lock/Turns.antt =====
-- The turns of one process while nobody else acts.
use nest_server.Prelude.{
  ℕ, ◌+◌, ◌-◌, ◌≡◌, refl, true, false, Option, none, some, eqb, eqb_iff, ltb, arith,
}
use nest_server.Migrate.Lock.{
  lock_stale_after_ms, LockDoc, Phase, trying, looking, pausing, stamping, breaking, running, World,
  tick, proceed, enter, is_owner, matches, delete_stale, advance, step,
}
use nest_server.Migrate.Lock.Fits.{holds}

abbrev world : ℕ → ℕ → Option LockDoc → (ℕ → Phase) → World
world now next_id lock phase = record { now = now; next_id = next_id; lock = lock; phase = phase }

-- What the process finds: the time, the lock and its own phase.
abbrev pub Stands : ℕ → ℕ → Option LockDoc → Phase → World → Type 0
Stands process now lock phase w =
    (next_id : ℕ) × (phases : ℕ → Phase) × (w ≡ world now next_id lock phases)
    × (phases process ≡ phase)

-- The process is at work and owns the lock.
abbrev pub Works : ℕ → World → Type 0
Works process w = (at : ℕ) × (w.phase process ≡ running at) × (holds w.lock process at ≡ true)

eqb_refl : (n : ℕ) → eqb n n ≡ true
eqb_refl n = (eqb_iff n n).1 refl

sub_zero : (n : ℕ) → n - 0 ≡ n
sub_zero n = omega arith

entered :
    (process now next_id : ℕ) (lock : Option LockDoc) (phase : Phase) (phases : ℕ → Phase)
    → Stands process now lock phase (enter process phase (world now next_id lock phases))
unfolding enter
entered process now next_id lock phase phases = (
  next_id,
  (enter process phase (world now next_id lock phases)).phase,
  refl,
  rw (eqb_refl process) refl,
)

abbrev pub turn : ℕ → World → World
turn process w = step (proceed process 0) w

module _ (process now : ℕ) where
  -- One turn, where it enters a phase and sets the lock.
  turned :
      (lock after : Option LockDoc) (phase next : Phase) (w : World)
      → ((next_id : ℕ) (phases : ℕ → Phase)
          → advance process now phase (world now next_id lock phases)
            ≡ enter process next (world now next_id after phases))
      → Stands process now lock phase w
      → Stands process now after next (turn process w)
  unfolding step
  turned lock after phase next w moves (next_id, phases, same, here) =
      rw (same, here, sub_zero now, moves next_id phases)
        (entered process now next_id after next phases)

  pub turn-looking :
      (doc : LockDoc) (deadline : ℕ) (w : World)
      → Stands process now (some doc) (trying deadline) w
      → Stands process now (some doc) (looking deadline) (turn process w)
  unfolding advance
  turn-looking doc deadline w =
      turned (some doc) (some doc) (trying deadline) (looking deadline) w (λ next_id phases. refl)

  pub turn-acquired :
      (deadline : ℕ) (w : World)
      → Stands process now none (trying deadline) w
      → Works process (turn process w)
  unfolding step advance enter holds is_owner
  turn-acquired deadline w (next_id, phases, same, here) =
      rw (same, here, sub_zero now)
        (now, rw (eqb_refl process) refl, rw (eqb_refl process, eqb_refl now) refl)

  pub turn-Works : (w : World) → Works process w → Works process (turn process w)
  unfolding step advance
  turn-Works w (at, here, held) = (at, rw (here, advance) here, rw (here, advance) held)

  pub turn-stamping :
      (id deadline : ℕ) (owner : Option ℕ) (w : World)
      → Stands process now
          (some (record { id = id; owner = owner; acquired_at = none }))
          (looking deadline)
          w
      → Stands process now
          (some (record { id = id; owner = owner; acquired_at = none }))
          (stamping deadline id)
          (turn process w)
  unfolding advance
  turn-stamping id deadline owner w = turned _ _ (looking deadline) _ w (λ next_id phases. refl)

  pub turn-stamped :
      (id deadline : ℕ) (owner : Option ℕ) (w : World)
      → Stands process now
          (some (record { id = id; owner = owner; acquired_at = none }))
          (stamping deadline id)
          w
      → Stands process now
          (some (record { id = id; owner = owner; acquired_at = some now }))
          (pausing deadline)
          (turn process w)
  unfolding advance
  turn-stamped id deadline owner w =
      turned _ _ (stamping deadline id) _ w (λ next_id phases. rw (eqb_refl id) refl)

  pub turn-fresh :
      (id deadline at : ℕ) (owner : Option ℕ) (w : World)
      → ltb lock_stale_after_ms (now - at) ≡ false
      → Stands process now
          (some (record { id = id; owner = owner; acquired_at = some at }))
          (looking deadline)
          w
      → Stands process now
          (some (record { id = id; owner = owner; acquired_at = some at }))
          (pausing deadline)
          (turn process w)
  unfolding advance
  turn-fresh id deadline at owner w young =
      turned _ _ (looking deadline) _ w (λ next_id phases. rw young refl)

  pub turn-stale :
      (id deadline at : ℕ) (owner : Option ℕ) (w : World)
      → ltb lock_stale_after_ms (now - at) ≡ true
      → Stands process now
          (some (record { id = id; owner = owner; acquired_at = some at }))
          (looking deadline)
          w
      → Stands process now
          (some (record { id = id; owner = owner; acquired_at = some at }))
          (breaking deadline id at)
          (turn process w)
  unfolding advance
  turn-stale id deadline at owner w old =
      turned _ _ (looking deadline) _ w (λ next_id phases. rw old refl)

  pub turn-broken :
      (id deadline at : ℕ) (owner : Option ℕ) (w : World)
      → Stands process now
          (some (record { id = id; owner = owner; acquired_at = some at }))
          (breaking deadline id at)
          w
      → Stands process now none (trying deadline) (turn process w)
  unfolding advance delete_stale matches
  turn-broken id deadline at owner w =
      turned _ _ (breaking deadline id at) _ w
        (λ next_id phases. rw (eqb_refl id, eqb_refl at) refl)

  pub turn-again :
      (lock : Option LockDoc) (deadline : ℕ) (w : World)
      → ltb deadline now ≡ false
      → Stands process now lock (pausing deadline) w
      → Stands process now lock (trying deadline) (turn process w)
  unfolding advance
  turn-again lock deadline w early =
      turned lock lock (pausing deadline) _ w (λ next_id phases. rw early refl)

  -- A wait, in which nothing else happens.
  pub passed :
      (ms : ℕ) (lock : Option LockDoc) (phase : Phase) (w : World)
      → Stands process now lock phase w
      → Stands process (now + ms) lock phase (step (tick ms) w)
  unfolding step
  passed ms lock phase w (next_id, phases, same, here) = (next_id, phases, rw same refl, here)

  pub passed-Works : (ms : ℕ) (w : World) → Works process w → Works process (step (tick ms) w)
  unfolding step
  passed-Works ms w works = works
