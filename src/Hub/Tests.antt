-- ===== src/Hub/Tests.antt =====
-- The theorems on the ring buffer at concrete inputs.
use nest_server.Prelude.{List, ◌++◌, ℕ, ◌-◌, ◌≡◌, none, some, [], ◌∷◌, length, drop, or_else}
use Prim.Native.Nat.{max}
use nest_server.Hub.RingBuffer.{HubRingBuffer, new, since, after}
use nest_server.Hub.RingBuffer.Reads.{Call, clear_call, count_cleared, adds, run, since-run}

abbrev two : HubRingBuffer ℕ
two = new 2

-- Two entries, a `clear`, and three more in a buffer for two.
abbrev calls : List (Call ℕ)
calls = adds 1 (5 ∷ 6 ∷ []) ++ (clear_call ∷ adds 1 (7 ∷ 8 ∷ 9 ∷ []))

since-run_example :
    since (some 2) none (run two [] calls).0
    ≡ drop
        (max
          (max (after (some 2)) (length (run two [] calls).1 - or_else none (max 1 2)))
          (max (length (run two [] calls).1 - max 1 2) (count_cleared 0 0 calls)))
        (run two [] calls).1
since-run_example = since-run 2 calls (some 2) none
