-- ===== src/Migrate/Lock/Exclusive.antt =====
-- Mutual exclusion of the processes.
use nest_server.Migrate.Lock.Fits.{holds, fits, IsSound}
use nest_server.Migrate.Lock.Sound.{fits_at, run-IsSound}
use nest_server.Prelude.{
  ℕ, ◌+◌, ◌≤◌, ◌≡◌, refl, true, Option, none, some, List, eqb_iff, arith, Option-cases, inl, inr,
}
use nest_server.Migrate.Lock.{
  lock_stale_after_ms, LockDoc, idle, running, World, Action, is_owner, run,
}

-- No process has started yet; a lock may have been left behind.
unfoldable pub start : ℕ → Option LockDoc → World
start now lock = record { now = now; next_id = 0; lock = lock; phase = λ process. idle }

start-IsSound : (now : ℕ) (lock : Option LockDoc) → IsSound (start now lock)
unfolding start fits
start-IsSound now lock process = refl

holds_of_fits :
    (w : World) (process last : ℕ)
    → IsSound w
    → w.phase process ≡ running last
    → w.now ≤ last + lock_stale_after_ms
    → holds w.lock process last ≡ true
unfolding fits
holds_of_fits w process last sound at fresh =
    let fit = fits_at w process sound at in ground (arith, fit)

holds_inj :
    (lock : Option LockDoc) (a b at_a at_b : ℕ)
    → holds lock a at_a ≡ true
    → holds lock b at_b ≡ true
    → a ≡ b
unfolding holds is_owner
holds_inj none a b at_a at_b ha hb = ground arith
holds_inj (some doc) a b at_a at_b ha hb = elim (Option-cases doc.owner) [
  | inl e ↦ ground arith
  | inr (owner, e) ↦ ground (arith, eqb_iff owner a, eqb_iff owner b)
]

-- However processes and time interleave, and whatever lock was left behind: two processes at work
-- whose last stamps are at most a minute old are one process, and it owns the lock, with its stamp.
pub run-exclusive :
    (now : ℕ) (lock : Option LockDoc) (actions : List Action) (a b at_a at_b : ℕ)
    → (run actions (start now lock)).phase a ≡ running at_a
    → (run actions (start now lock)).phase b ≡ running at_b
    → (run actions (start now lock)).now ≤ at_a + lock_stale_after_ms
    → (run actions (start now lock)).now ≤ at_b + lock_stale_after_ms
    → (a ≡ b) × (holds (run actions (start now lock)).lock a at_a ≡ true)
run-exclusive now lock actions a b at_a at_b works_a works_b fresh_a fresh_b =
    (holds_inj w.lock a b at_a at_b held_a held_b, held_a)
  where
    w : World
    w = run actions (start now lock)

    sound : IsSound w
    sound = run-IsSound (start now lock) actions (start-IsSound now lock)

    held_a : holds w.lock a at_a ≡ true
    held_a = holds_of_fits w a at_a sound works_a fresh_a

    held_b : holds w.lock b at_b ≡ true
    held_b = holds_of_fits w b at_b sound works_b fresh_b
