-- ===== src/Migrate/Lock/Sound.antt =====
-- The actions, and the phases that fit the lock.
use nest_server.Migrate.Lock.Fits.{
  holds, fits, IsSound, fits-later, fits_of_holds, holds-stamp_unstamped, holds-delete_stale,
  holds-delete_own,
}
use nest_server.Prelude.{
  ℕ, ◌+◌, ◌-◌, ◌≤◌, ◌≡◌, refl, true, false, ◌||◌, Option, none, some, List, [], ◌∷◌, eqb, eqb_iff,
  ltb, if◌then◌else◌, arith, Option-cases, Bool-cases, suc, inl, inr,
}
use mathlib.Core.Path.{subst}
use nest_server.Migrate.Lock.{
  lock_stale_after_ms, LockDoc, Phase, idle, trying, looking, pausing, stamping, breaking, running,
  timed_out, released, World, Action, tick, proceed, beat, release, enter, is_owner, upsert,
  judge_holder, stamp_unstamped, delete_stale, delete_own, advance, heartbeat, touch, release_lock,
  step, run,
}

enter-IsSound :
    (w : World) (actor : ℕ) (phase : Phase)
    → fits w.now w.lock actor phase ≡ true
    → ((other : ℕ) → eqb other actor ≡ false → fits w.now w.lock other (w.phase other) ≡ true)
    → IsSound (enter actor phase w)
unfolding enter
enter-IsSound w actor phase own others process = elim (Bool-cases (eqb process actor)) [
  | inl same ↦ rw (same, (eqb_iff process actor).0 same) own
  | inr foreign ↦ rw foreign (others process foreign)
]

pub fits_at :
    (w : World) (process : ℕ) {phase : Phase}
    → IsSound w
    → w.phase process ≡ phase
    → fits w.now w.lock process phase ≡ true
fits_at w process sound at =
    subst (λ phase. fits w.now w.lock process phase ≡ true) at (sound process)

-- No phase needs a lock that is not there.
fits-none :
    (now : ℕ) (after : Option LockDoc) (process : ℕ) (phase : Phase)
    → fits now none process phase ≡ true
    → fits now after process phase ≡ true
unfolding holds
fits-none now after process phase h =
    fits_of_holds now none after process phase (λ last held. ground arith) h

upsert-IsSound :
    (w : World) (process deadline stamp : ℕ) (lock : Option LockDoc)
    → w.lock ≡ lock
    → IsSound w
    → IsSound (upsert process deadline stamp lock w)
unfolding upsert
upsert-IsSound w process deadline stamp none free sound =
    enter-IsSound
      (record w {
        next_id = suc w.next_id;
        lock = some (record { id = w.next_id; owner = some process; acquired_at = some stamp });
      })
      process (running stamp)
      (unfold fits holds is_owner in ground (arith, eqb_iff process process, eqb_iff stamp stamp))
      (λ other foreign.
        fits-none w.now _ other (w.phase other)
          (subst (λ lock. fits w.now lock other (w.phase other) ≡ true) free (sound other)))
upsert-IsSound w process deadline stamp (some doc) held sound =
    enter-IsSound w process (looking deadline) (unfold fits in refl) (λ other foreign. sound other)

holds-foreign :
    (now stamp : ℕ) (doc : LockDoc) (actor process last : ℕ)
    → eqb process actor ≡ false
    → is_owner actor doc.owner ≡ true
    → holds (some doc) process last ≡ true
    → holds (some (record doc { acquired_at = some stamp })) process last
        || ltb (last + lock_stale_after_ms) now
      ≡ true
unfolding holds is_owner
holds-foreign now stamp doc actor process last foreign owned h = elim (Option-cases doc.owner) [
  | inl e ↦ ground arith
  | inr (owner, e) ↦
      ground (arith, eqb_iff owner actor, eqb_iff owner process, eqb_iff process actor)
]

touch-IsSound :
    (w : World) (process stamp : ℕ) (lock : Option LockDoc)
    → w.lock ≡ lock
    → IsSound w
    → IsSound (touch process stamp lock w)
unfolding touch
touch-IsSound w process stamp none free sound = sound
touch-IsSound w process stamp (some doc) held sound =
    elim (Bool-cases (is_owner process doc.owner)) [
      | inl own ↦ rw own (
          enter-IsSound (record w { lock = some (record doc { acquired_at = some stamp }) }) process
            (running stamp) (unfold fits holds is_owner in ground (arith, eqb_iff stamp stamp))
            (λ other foreign.
              fits_of_holds w.now (some doc) _ other (w.phase other)
                (λ last. holds-foreign w.now stamp doc process other last foreign own)
                (subst (λ lock. fits w.now lock other (w.phase other) ≡ true) held (sound other))))
      | inr foreign ↦ rw foreign sound
    ]

judge_holder-fits :
    (deadline now stamp process : ℕ) (lock : Option LockDoc)
    → stamp ≤ now
    → fits now lock process (judge_holder deadline stamp lock) ≡ true
unfolding judge_holder fits
judge_holder-fits deadline now stamp process none le = refl
judge_holder-fits deadline now stamp process (some doc) le = ground arith

pausing-fits :
    (now stamp deadline process : ℕ) (lock : Option LockDoc)
    → fits now lock process (if ltb deadline stamp then timed_out else trying deadline) ≡ true
unfolding fits
pausing-fits now stamp deadline process lock = elim (Bool-cases (ltb deadline stamp)) [
  | inl late ↦ rw late refl
  | inr early ↦ rw early refl
]

advance-IsSound :
    (w : World) (process stamp : ℕ) (phase : Phase)
    → stamp ≤ w.now
    → IsSound w
    → w.phase process ≡ phase
    → IsSound (advance process stamp phase w)
unfolding advance
advance-IsSound w process stamp idle le sound at =
    enter-IsSound w process _ (unfold fits in refl) (λ other e. sound other)
advance-IsSound w process stamp (trying d) le sound at =
    upsert-IsSound w process d stamp w.lock refl sound
advance-IsSound w process stamp (looking d) le sound at =
    enter-IsSound w process _ (judge_holder-fits d w.now stamp process w.lock le)
      (λ other e. sound other)
advance-IsSound w process stamp (stamping d id) le sound at =
    enter-IsSound (record w { lock = stamp_unstamped id stamp w.lock }) process _
      (unfold fits in refl)
      (λ other e.
        fits_of_holds w.now w.lock _ other (w.phase other)
          (holds-stamp_unstamped id stamp w.now w.lock other) (sound other))
advance-IsSound w process stamp (breaking d id acquired_at) le sound at =
    enter-IsSound (record w { lock = delete_stale id acquired_at w.lock }) process _
      (unfold fits in refl)
      (λ other e.
        fits_of_holds w.now w.lock _ other (w.phase other)
          (λ last.
            holds-delete_stale id acquired_at w.now w.lock other last
              (unfold fits in fits_at w process sound at))
          (sound other))
advance-IsSound w process stamp (pausing d) le sound at =
    enter-IsSound w process _ (pausing-fits w.now stamp d process w.lock) (λ other e. sound other)
advance-IsSound w process stamp (running last) le sound at = sound
advance-IsSound w process stamp timed_out le sound at = sound
advance-IsSound w process stamp released le sound at = sound

heartbeat-IsSound :
    (w : World) (process stamp : ℕ) (phase : Phase)
    → IsSound w
    → IsSound (heartbeat process stamp phase w)
unfolding heartbeat
heartbeat-IsSound w process stamp (running last) sound =
    touch-IsSound w process stamp w.lock refl sound
heartbeat-IsSound w process stamp idle sound = sound
heartbeat-IsSound w process stamp (trying d) sound = sound
heartbeat-IsSound w process stamp (looking d) sound = sound
heartbeat-IsSound w process stamp (pausing d) sound = sound
heartbeat-IsSound w process stamp (stamping d id) sound = sound
heartbeat-IsSound w process stamp (breaking d id at) sound = sound
heartbeat-IsSound w process stamp timed_out sound = sound
heartbeat-IsSound w process stamp released sound = sound

release_lock-IsSound :
    (w : World) (process : ℕ) (phase : Phase) → IsSound w → IsSound (release_lock process phase w)
unfolding release_lock
release_lock-IsSound w process (running last) sound =
    enter-IsSound (record w { lock = delete_own process w.lock }) process released
      (unfold fits in refl)
      (λ other foreign.
        fits_of_holds w.now w.lock _ other (w.phase other)
          (λ last. holds-delete_own process w.now w.lock other last foreign) (sound other))
release_lock-IsSound w process idle sound = sound
release_lock-IsSound w process (trying d) sound = sound
release_lock-IsSound w process (looking d) sound = sound
release_lock-IsSound w process (pausing d) sound = sound
release_lock-IsSound w process (stamping d id) sound = sound
release_lock-IsSound w process (breaking d id at) sound = sound
release_lock-IsSound w process timed_out sound = sound
release_lock-IsSound w process released sound = sound

step-IsSound : (w : World) (action : Action) → IsSound w → IsSound (step action w)
unfolding step
step-IsSound w (tick ms) sound =
    λ process. fits-later w.now ms w.lock process (w.phase process) (sound process)
step-IsSound w (proceed process delay) sound =
    advance-IsSound w process (w.now - delay) (w.phase process) (omega arith) sound refl
step-IsSound w (beat process delay) sound =
    heartbeat-IsSound w process (w.now - delay) (w.phase process) sound
step-IsSound w (release process) sound = release_lock-IsSound w process (w.phase process) sound

pub run-IsSound : (w : World) (actions : List Action) → IsSound w → IsSound (run actions w)
unfolding run
run-IsSound w [] sound = sound
run-IsSound w (action ∷ actions) sound =
    run-IsSound (step action w) actions (step-IsSound w action sound)
