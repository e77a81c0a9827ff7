-- ===== src/RateLimit/Store/Bounds.antt =====
-- The size of the store.
use nest_server.Prelude.{
  ℕ, ◌+◌, ◌≤◌, ◌<◌, ◌≡◌, refl, true, false, not, Option, none, some, arith, Text, text_eq, nat_eq,
  leb, is_some, if◌then◌else◌, Option-cases, inl, inr, length, all, length-filter, filter_of_all,
}
use nest_server.Prelude.Dict.{get, length-set, get-set}
use nest_server.RateLimit.Store.{
  Counter, InMemoryStore, live, hit, hit_new, hit_full, hit_overflow, open_window, evict_oldest,
  remove_expired, fresh_counter, overflow_slot,
}

live-some : (now : ℕ) (o : Option Counter) (c : Counter) → live now o ≡ some c → is_some o ≡ true
unfolding live
live-some now none c h = cc
live-some now (some d) c h = refl

open_window-length :
    (key : Text) (window now : ℕ) (s : InMemoryStore)
    → length (open_window key window now s).1.store
      ≡ (if is_some (get s.store key) then length s.store else length s.store + 1)
unfolding open_window
open_window-length key window now s = length-set s.store key (fresh_counter window now)

-- Making room loses nothing of the bound, and leaves room or says that there is none.
evict_oldest-room :
    (now : ℕ) (s : InMemoryStore)
    → 0 < s.max_entries
    → length s.store ≤ s.max_entries
    → (length (evict_oldest now s).store ≤ s.max_entries)
      × ((evict_oldest now s).max_entries ≡ s.max_entries)
      × ((evict_oldest now s).at_capacity ≡ false
          → s.at_capacity ≡ false
          → length (evict_oldest now s).store < s.max_entries)
unfolding evict_oldest remove_expired
evict_oldest-room now s room bounded =
    let shorter = length-filter (λ entry. not (leb entry.1.reset_time now)) s.store in
    ground (arith, shorter)

hit_full-IsBounded :
    (key : Text) (window now : ℕ) (s : InMemoryStore)
    → 0 < s.max_entries
    → length s.store ≤ s.max_entries
    → length (hit_full key window now s).1.store ≤ s.max_entries
unfolding hit_full hit_overflow
hit_full-IsBounded key window now s room bounded =
    let s₀ = record s { at_capacity = false } in
    ground (
      arith,
      evict_oldest-room now s₀ room bounded,
      open_window-length key window now (evict_oldest now s₀),
    )

-- A hit keeps the store within its capacity, where that is not zero, whatever the key.
pub hit-IsBounded :
    (key : Text) (window now : ℕ) (s : InMemoryStore)
    → 0 < s.max_entries
    → length s.store ≤ s.max_entries
    → length (hit key window now s).1.store ≤ s.max_entries
unfolding hit hit_new
hit-IsBounded key window now s room bounded = elim (Option-cases (live now (get s.store key))) [
  | inl new ↦
      rw (new, hit)
        (ground (
          arith,
          hit_full-IsBounded key window now s room bounded,
          open_window-length key window now s,
        ))
  | inr (c, old) ↦
      let known = live-some now (get s.store key) c old in
      rw (old, hit)
        (ground (arith, length-set s.store key (record c { count = c.count + 1 }), known))
]

-- In a full store whose counters are all live, a hit of a key that has none is counted by the bucket
-- that the key shares, as long as that is live: the answer is the bucket's count and one more, and
-- the counters of the store stay.
pub hit-full_store :
    (key : Text) (window now : ℕ) (s : InMemoryStore) (c : Counter)
    → s.max_entries ≤ length s.store
    → all (λ entry. not (leb entry.1.reset_time now)) s.store ≡ true
    → get s.store key ≡ none
    → get s.overflow (overflow_slot key) ≡ some c
    → now < c.reset_time
    → ((hit key window now s).0.count ≡ c.count + 1)
      × ((hit key window now s).1.store ≡ s.store)
      × (get (hit key window now s).1.overflow (overflow_slot key)
          ≡ some (record { count = c.count + 1; reset_time = c.reset_time }))
unfolding hit hit_new hit_full hit_overflow evict_oldest remove_expired live
hit-full_store key window now s c full alive unknown shared running = ground (
  arith,
  filter_of_all (λ entry. not (leb entry.1.reset_time now)) s.store alive,
  get-set s.overflow (overflow_slot key) (overflow_slot key)
      (record { count = c.count + 1; reset_time = c.reset_time }),
)
