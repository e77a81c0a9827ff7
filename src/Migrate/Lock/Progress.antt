-- ===== src/Migrate/Lock/Progress.antt =====
-- A process that waits for a lock whose holder is silent.
use nest_server.Migrate.Lock.Turns.{
  turn-looking, turn-acquired, turn-Works, turn-stamping, turn-stamped, turn-fresh, turn-stale,
  turn-broken, turn-again, passed, passed-Works, Stands, Works, turn,
}
use nest_server.Prelude.{
  ℕ, ◌+◌, ◌-◌, ◌≤◌, ◌<◌, ◌≡◌, refl, Bool, true, Option, none, some, List, [], ◌∷◌, ltb, leb, arith,
  Bool-cases, inl, inr,
}
use nest_server.Migrate.Lock.{
  lock_stale_after_ms, LockDoc, trying, looking, World, Action, tick, proceed, run,
}

-- A stale lock is broken and taken.
take_stale :
    (process now id deadline at : ℕ) (owner : Option ℕ) (w : World)
    → ltb lock_stale_after_ms (now - at) ≡ true
    → Stands process now
        (some (record { id = id; owner = owner; acquired_at = some at }))
        (looking deadline)
        w
    → Works process (turn process (turn process (turn process w)))
take_stale process now id deadline at owner w old stands = turn-acquired process now deadline _ (
    turn-broken process now id deadline at owner _
      (turn-stale process now id deadline at owner w old stands))

-- Four requests, a wait, four requests.
abbrev pub insist : ℕ → ℕ → List Action
insist process ms =
    proceed process 0
    ∷ proceed process 0
    ∷ proceed process 0
    ∷ proceed process 0
    ∷ tick ms
    ∷ proceed process 0
    ∷ proceed process 0
    ∷ proceed process 0
    ∷ proceed process 0
    ∷ []

-- The stamp of a lock, if it has one, is not in the future.
unfoldable pub is_past : ℕ → Option ℕ → Bool
is_past now none = true
is_past now (some at) = leb at now

unfoldable pub is_lock_past : ℕ → Option LockDoc → Bool
unfolding is_past
is_lock_past now none = true
is_lock_past now (some doc) = is_past now doc.acquired_at

module _ (process now deadline ms : ℕ) (early : now ≤ deadline)
    (long : lock_stale_after_ms < ms) where
  insist-stamped :
      (id at : ℕ) (owner : Option ℕ) (w : World)
      → at ≤ now
      → Stands process now
          (some (record { id = id; owner = owner; acquired_at = some at }))
          (trying deadline)
          w
      → Works process (run (insist process ms) w)
  unfolding run
  insist-stamped id at owner w past stands =
      let doc : LockDoc = record { id = id; owner = owner; acquired_at = some at } in
      let look = turn-looking process now doc deadline w stands in
      let t = turn-Works process now in
      elim (Bool-cases (ltb lock_stale_after_ms (now - at))) [
        | inl old ↦ t _ (
            t _ (
              t _ (
                t _ (
                  passed-Works process now ms _
                    (take_stale process now id deadline at owner _ old look)))))
        | inr young ↦
            let again =
              turn-again process now (some doc) deadline _ (ground arith)
                (turn-fresh process now id deadline at owner _ young look) in
            let waits =
              passed process now ms (some doc) (looking deadline) _
                (turn-looking process now doc deadline _ again) in
            t _ (take_stale process (now + ms) id deadline at owner _ (ground arith) waits)
      ]

  insist-unstamped :
      (id : ℕ) (owner : Option ℕ) (w : World)
      → Stands process now
          (some (record { id = id; owner = owner; acquired_at = none }))
          (trying deadline)
          w
      → Works process (run (insist process ms) w)
  unfolding run
  insist-unstamped id owner w stands =
      let doc : LockDoc = record { id = id; owner = owner; acquired_at = none } in
      let stamped : LockDoc = record { id = id; owner = owner; acquired_at = some now } in
      let look = turn-looking process now doc deadline w stands in
      let again = turn-again process now (some stamped) deadline _ (ground arith) (
        turn-stamped process now id deadline owner _
          (turn-stamping process now id deadline owner _ look)) in
      let waits = passed process now ms (some stamped) (trying deadline) _ again in
      take_stale process (now + ms) id deadline now owner _ (ground arith)
        (turn-looking process (now + ms) stamped deadline _ waits)

  insist_by_stamp :
      (id : ℕ) (owner acquired_at : Option ℕ) (w : World)
      → is_past now acquired_at ≡ true
      → Stands process now
          (some (record { id = id; owner = owner; acquired_at = acquired_at }))
          (trying deadline)
          w
      → Works process (run (insist process ms) w)
  unfolding is_past
  insist_by_stamp id owner none w past stands = insist-unstamped id owner w stands
  insist_by_stamp id owner (some at) w past stands =
      insist-stamped id at owner w (ground arith) stands

  insist_by_lock :
      (lock : Option LockDoc) (w : World)
      → is_lock_past now lock ≡ true
      → Stands process now lock (trying deadline) w
      → Works process (run (insist process ms) w)
  unfolding run is_lock_past
  insist_by_lock none w past stands =
      let t = turn-Works process now in
      let works = turn-acquired process now deadline w stands in
      t _ (t _ (t _ (t _ (passed-Works process now ms _ (t _ (t _ (t _ works)))))))
  insist_by_lock (some doc) w past stands =
      insist_by_stamp doc.id doc.owner doc.acquired_at w past stands

-- Whatever lock was left behind, with a stamp of the past or without one: a process that starts to
-- wait is at work and owns the lock after four requests, a wait of more than a minute and four more
-- requests, if nobody else acts and its deadline has not passed before the wait.
pub run-insist :
    (process ms deadline : ℕ) (w : World)
    → w.phase process ≡ trying deadline
    → is_lock_past w.now w.lock ≡ true
    → w.now ≤ deadline
    → lock_stale_after_ms < ms
    → Works process (run (insist process ms) w)
run-insist process ms deadline w here past early long =
    insist_by_lock process w.now deadline ms early long w.lock w past
      (w.next_id, w.phase, refl, here)
