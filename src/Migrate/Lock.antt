-- ===== src/Migrate/Lock.antt =====
-- The lock of the migrations in MongoDB (acquireLock, releaseLock and startLockHeartbeat of
-- src/core/modules/migrate/mongo-state-store.ts), as a transition system. A process is named by its
-- token, which lockOwnerId makes unique. Each request to the database is one atomic action; between
-- any two of them other processes may act and time may pass. A process that is killed acts no more.
-- All processes share one clock, in milliseconds; a time stamp may be older than the action that
-- carries it, by as much as the request was under way. The unique index is what makes the
-- collection hold one document at most. Connections and log lines are not modelled.
pub mod Fits
pub mod Sound
pub mod Exclusive
pub mod Turns
pub mod Progress
use nest_server.Prelude.{
  suc, ℕ, ◌+◌, ◌-◌, Bool, true, false, ◌&&◌, Option, none, some, List, [], ◌∷◌, eqb, ltb,
  if◌then◌else◌,
}

abbrev pub lock_stale_after_ms : ℕ
lock_stale_after_ms = 60000

abbrev pub lock_wait_timeout_ms : ℕ
lock_wait_timeout_ms = 900000

-- The document with `lock: 'lock'`. A version without the clock wrote neither time nor owner.
pub record LockDoc : Type 0 where
  pub id : ℕ
  pub owner : Option ℕ
  pub acquired_at : Option ℕ

-- Where a process stands: before and between the requests of acquireLock, with the deadline of its
-- wait; at work, with the time of its last stamp that reached the lock; after the release.
pub data Phase : Type 0 where
  idle : Phase
  trying looking pausing : (deadline : ℕ) → Phase
  stamping : (deadline id : ℕ) → Phase
  breaking : (deadline id acquired_at : ℕ) → Phase
  running : (last : ℕ) → Phase
  timed_out released : Phase

pub record World : Type 0 where
  pub now : ℕ
  -- the ids of the documents to come
  pub next_id : ℕ
  pub lock : Option LockDoc
  pub phase : ℕ → Phase

-- What happens next: time passes, or a process makes its next request, sent `delay` ago, or its
-- heartbeat does, or it is done and releases the lock.
pub data Action : Type 0 where
  tick : (ms : ℕ) → Action
  proceed beat : (process delay : ℕ) → Action
  release : (process : ℕ) → Action

unfoldable pub enter : ℕ → Phase → World → World
enter process phase w = record w {
  phase = λ other. if eqb other process then phase else w.phase other;
}

unfoldable pub is_owner : ℕ → Option ℕ → Bool
is_owner process none = false
is_owner process (some owner) = eqb owner process

-- The update with `upsert`, which writes only where there is no lock.
unfoldable pub upsert : ℕ → ℕ → ℕ → Option LockDoc → World → World
unfolding enter
upsert process deadline stamp none w = enter process (running stamp) (record w {
  next_id = suc w.next_id;
  lock = some (record { id = w.next_id; owner = some process; acquired_at = some stamp });
})
upsert process deadline stamp (some doc) w = enter process (looking deadline) w

-- findOne, and what the loop makes of the holder.
unfoldable pub judge_holder : ℕ → ℕ → Option LockDoc → Phase
judge_holder deadline now none = pausing deadline
judge_holder deadline now (some doc) = elim doc.acquired_at [
  | none ↦ stamping deadline doc.id
  | some acquired_at ↦
      if ltb lock_stale_after_ms (now - acquired_at)
      then breaking deadline doc.id acquired_at
      else pausing deadline
]

-- { _id, acquiredAt: { $exists: false } }
unfoldable pub stamp_unstamped : ℕ → ℕ → Option LockDoc → Option LockDoc
stamp_unstamped id stamp none = none
stamp_unstamped id stamp (some doc) = elim doc.acquired_at [
  | none ↦ if eqb doc.id id then some (record doc { acquired_at = some stamp }) else some doc
  | some acquired_at ↦ some doc
]

unfoldable pub matches : ℕ → ℕ → LockDoc → Bool
matches id acquired_at doc = elim doc.acquired_at [
  | none ↦ false
  | some at ↦ eqb doc.id id && eqb at acquired_at
]

-- deleteOne({ _id, acquiredAt })
unfoldable pub delete_stale : ℕ → ℕ → Option LockDoc → Option LockDoc
unfolding matches
delete_stale id acquired_at none = none
delete_stale id acquired_at (some doc) = if matches id acquired_at doc then none else some doc

-- deleteOne({ lock: 'lock', owner: token })
unfoldable pub delete_own : ℕ → Option LockDoc → Option LockDoc
unfolding is_owner
delete_own process none = none
delete_own process (some doc) = if is_owner process doc.owner then none else some doc

-- One turn of the loop of acquireLock up to its next request; `lockOwnerId` and the deadline first.
unfoldable pub advance : ℕ → ℕ → Phase → World → World
unfolding enter upsert judge_holder stamp_unstamped delete_stale
advance process stamp idle w = enter process (trying (stamp + lock_wait_timeout_ms)) w
advance process stamp (trying deadline) w = upsert process deadline stamp w.lock w
advance process stamp (looking deadline) w = enter process (judge_holder deadline stamp w.lock) w
advance process stamp (stamping deadline id) w =
    enter process (pausing deadline) (record w { lock = stamp_unstamped id stamp w.lock })
advance process stamp (breaking deadline id acquired_at) w =
    enter process (trying deadline) (record w { lock = delete_stale id acquired_at w.lock })
advance process stamp (pausing deadline) w =
    enter process (if ltb deadline stamp then timed_out else trying deadline) w
advance process stamp (running last) w = w
advance process stamp timed_out w = w
advance process stamp released w = w

-- The heartbeat's update of { lock: 'lock', owner: token }.
unfoldable pub touch : ℕ → ℕ → Option LockDoc → World → World
unfolding enter is_owner
touch process stamp none w = w
touch process stamp (some doc) w =
    if is_owner process doc.owner
    then enter process (running stamp)
        (record w { lock = some (record doc { acquired_at = some stamp }) })
    else w

unfoldable pub heartbeat : ℕ → ℕ → Phase → World → World
unfolding touch
heartbeat process stamp (running last) w = touch process stamp w.lock w
heartbeat process stamp other w = w

unfoldable pub release_lock : ℕ → Phase → World → World
unfolding enter delete_own
release_lock process (running last) w =
    enter process released (record w { lock = delete_own process w.lock })
release_lock process other w = w

unfoldable pub step : Action → World → World
unfolding advance heartbeat release_lock
step (tick ms) w = record w { now = w.now + ms }
step (proceed process delay) w = advance process (w.now - delay) (w.phase process) w
step (beat process delay) w = heartbeat process (w.now - delay) (w.phase process) w
step (release process) w = release_lock process (w.phase process) w

unfoldable pub run : List Action → World → World
run [] w = w
run (action ∷ actions) w = run actions (step action w)
