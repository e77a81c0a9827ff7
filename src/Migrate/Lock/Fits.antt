-- ===== src/Migrate/Lock/Fits.antt =====
-- What a phase of a process says of the lock, and which changes of the lock keep it.
use nest_server.Prelude.{
  ℕ, ◌+◌, ◌≡◌, refl, Bool, true, false, ◌&&◌, ◌||◌, Option, none, some, eqb, ltb, arith, Bool-cases,
  inl, inr,
}
use nest_server.Migrate.Lock.{
  lock_stale_after_ms, LockDoc, Phase, idle, trying, looking, pausing, stamping, breaking, running,
  timed_out, released, World, is_owner, stamp_unstamped, matches, delete_stale, delete_own,
}

-- The lock is owned by the process and carries this stamp.
unfoldable pub holds : Option LockDoc → ℕ → ℕ → Bool
unfolding is_owner
holds none process last = false
holds (some doc) process last = is_owner process doc.owner && is_owner last doc.acquired_at

-- A phase fits the lock: who works holds the lock, or was silent for too long; a lock is broken only
-- over a stamp that is too old.
unfoldable pub fits : ℕ → Option LockDoc → ℕ → Phase → Bool
unfolding holds
fits now lock process (running last) =
    holds lock process last || ltb (last + lock_stale_after_ms) now
fits now lock process (breaking deadline id acquired_at) =
    ltb (acquired_at + lock_stale_after_ms) now
fits now lock process other = true

abbrev pub IsSound : World → Type 0
IsSound w = (process : ℕ) → fits w.now w.lock process (w.phase process) ≡ true

pub fits-later :
    (now ms : ℕ) (lock : Option LockDoc) (process : ℕ) (phase : Phase)
    → fits now lock process phase ≡ true
    → fits (now + ms) lock process phase ≡ true
unfolding fits
fits-later now ms lock process (running last) h = ground arith
fits-later now ms lock process (breaking deadline id at) h = ground arith
fits-later now ms lock process idle h = refl
fits-later now ms lock process (trying d) h = refl
fits-later now ms lock process (looking d) h = refl
fits-later now ms lock process (pausing d) h = refl
fits-later now ms lock process (stamping d id) h = refl
fits-later now ms lock process timed_out h = refl
fits-later now ms lock process released h = refl

-- A lock that keeps what `holds` says keeps the phases.
pub fits_of_holds :
    (now : ℕ) (before after : Option LockDoc) (process : ℕ) (phase : Phase)
    → ((last : ℕ)
        → holds before process last ≡ true
        → holds after process last || ltb (last + lock_stale_after_ms) now ≡ true)
    → fits now before process phase ≡ true
    → fits now after process phase ≡ true
unfolding fits
fits_of_holds now before after process (running last) keep h =
    elim (Bool-cases (holds before process last)) [
      | inl held ↦ keep last held
      | inr lost ↦ let k = keep last in ground (arith, k)
    ]
fits_of_holds now before after process (breaking deadline id at) keep h = h
fits_of_holds now before after process idle keep h = refl
fits_of_holds now before after process (trying d) keep h = refl
fits_of_holds now before after process (looking d) keep h = refl
fits_of_holds now before after process (pausing d) keep h = refl
fits_of_holds now before after process (stamping d id) keep h = refl
fits_of_holds now before after process timed_out keep h = refl
fits_of_holds now before after process released keep h = refl

pub holds-stamp_unstamped :
    (id stamp now : ℕ) (lock : Option LockDoc) (process last : ℕ)
    → holds lock process last ≡ true
    → holds (stamp_unstamped id stamp lock) process last || ltb (last + lock_stale_after_ms) now
      ≡ true
unfolding holds stamp_unstamped
holds-stamp_unstamped id stamp now none process last h = ground arith
holds-stamp_unstamped id stamp now (some doc) process last h = ground arith

pub holds-delete_stale :
    (id at now : ℕ) (lock : Option LockDoc) (process last : ℕ)
    → ltb (at + lock_stale_after_ms) now ≡ true
    → holds lock process last ≡ true
    → holds (delete_stale id at lock) process last || ltb (last + lock_stale_after_ms) now ≡ true
unfolding holds delete_stale matches is_owner
holds-delete_stale id at now none process last old h = ground arith
holds-delete_stale id at now (some doc) process last old h = ground arith

pub holds-delete_own :
    (other now : ℕ) (lock : Option LockDoc) (process last : ℕ)
    → eqb process other ≡ false
    → holds lock process last ≡ true
    → holds (delete_own other lock) process last || ltb (last + lock_stale_after_ms) now ≡ true
unfolding holds delete_own is_owner
holds-delete_own other now none process last foreign h = ground arith
holds-delete_own other now (some doc) process last foreign h = ground arith
