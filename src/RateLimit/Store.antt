-- ===== src/RateLimit/Store.antt =====
-- The process-local counter store (InMemoryRateLimitStore). Times are milliseconds, and a window is
-- given in seconds; both are natural numbers. The clean-up interval and the log are not modelled.
pub mod Exact
pub mod Bounds
use nest_server.Prelude.{
  ℕ, zero, suc, ◌+◌, ◌-◌, ◌*◌, ◌/◌, ◌%◌, ◌^◌, Bool, true, false, not, ◌&&◌, ◌||◌, Option, none,
  some, List, [], ◌∷◌, Text, text_eq, nat_eq, ltb, leb, if◌then◌else◌, is_some, length, filter,
  starts_with,
}
use nest_server.Prelude.Dict.{Dict, get, set}

-- RateLimitStoreHit
pub record Hit : Type 0 where
  pub count : ℕ
  pub reset_in : ℕ

pub record Counter : Type 0 where
  pub count : ℕ
  pub reset_time : ℕ

pub record InMemoryStore : Type 0 where
  pub store : Dict Text Counter
  pub overflow : Dict ℕ Counter
  pub max_entries : ℕ
  pub at_capacity : Bool
  pub capacity_warned : Bool

abbrev pub overflow_buckets : ℕ
overflow_buckets = 64

-- The hash of overflowSlot as a 32-bit pattern: `(hash * 31 + unit) | 0`.
unfoldable pub hash_from : ℕ → Text → ℕ
hash_from hash [] = hash
hash_from hash (c ∷ s) = hash_from ((hash * 31 + c) % 2 ^ 32) s

-- Math.abs of a 32-bit pattern read as a signed number
unfoldable pub abs32 : ℕ → ℕ
abs32 h = if ltb h (2 ^ 31) then h else 2 ^ 32 - h

unfoldable pub overflow_slot : Text → ℕ
unfolding hash_from abs32
overflow_slot key = abs32 (hash_from 0 key) % overflow_buckets

unfoldable pub new : ℕ → InMemoryStore
new max_entries = record {
  store = [];
  overflow = [];
  max_entries = max_entries;
  at_capacity = false;
  capacity_warned = false;
}

unfoldable pub clear : InMemoryStore → InMemoryStore
clear s = record s { store = []; overflow = []; at_capacity = false; capacity_warned = false }

-- Math.ceil((resetTime - now) / 1000), for a counter that is live
abbrev pub seconds_left : ℕ → Counter → ℕ
seconds_left now c = (c.reset_time - now + 999) / 1000

-- `entry && now < entry.resetTime`: a counter that is there and has not run out
unfoldable pub live : ℕ → Option Counter → Option Counter
live now none = none
live now (some c) = if leb c.reset_time now then none else some c

unfoldable pub fresh_counter : ℕ → ℕ → Counter
fresh_counter window now = record { count = 1; reset_time = now + window * 1000 }

abbrev pub counted_up : Counter → Counter
counted_up c = record c { count = c.count + 1 }

-- hitOverflow
unfoldable pub hit_overflow : Text → ℕ → ℕ → InMemoryStore → Hit × InMemoryStore
unfolding fresh_counter
hit_overflow key window now s =
    let slot = overflow_slot key in
    elim (live now (get s.overflow slot)) [
      | none ↦ (
        record { count = 1; reset_in = window },
        record s { overflow = set s.overflow slot (fresh_counter window now) },
      )
      | some c ↦ (
        record { count = c.count + 1; reset_in = seconds_left now c },
        record s { overflow = set s.overflow slot (counted_up c) },
      )
    ]

-- removeExpired, with the number of counters that it removed. It reads the clock again; here that
-- is the time of the hit.
unfoldable pub remove_expired : ℕ → InMemoryStore → InMemoryStore × ℕ
remove_expired now s =
    let kept = filter (λ entry. not (leb entry.1.reset_time now)) s.store in
    (record s { store = kept }, length s.store - length kept)

-- evictOldest
unfoldable pub evict_oldest : ℕ → InMemoryStore → InMemoryStore
unfolding remove_expired
evict_oldest now s =
    let (s', removed) = remove_expired now s in
    if ltb 0 removed || ltb (length s'.store) s'.max_entries
    then s'
    else record s' { at_capacity = true }

-- A new window for the key, in the store.
unfoldable pub open_window : Text → ℕ → ℕ → InMemoryStore → Hit × InMemoryStore
unfolding fresh_counter
open_window key window now s = (
  record { count = 1; reset_in = window },
  record s { store = set s.store key (fresh_counter window now) },
)

-- The part of `hit` for a key that is not in a full store.
unfoldable pub hit_full : Text → ℕ → ℕ → InMemoryStore → Hit × InMemoryStore
hit_full key window now s =
    let s' = evict_oldest now (record s { at_capacity = false }) in
    if s'.at_capacity
    then hit_overflow key window now (record s' { capacity_warned = true })
    else open_window key window now s'

-- The part of `hit` for a key with no live counter.
unfoldable pub hit_new : Bool → Text → ℕ → ℕ → InMemoryStore → Hit × InMemoryStore
hit_new known key window now s =
    if not known && leb s.max_entries (length s.store)
    then hit_full key window now s
    else open_window key window now s

unfoldable pub hit : Text → ℕ → ℕ → InMemoryStore → Hit × InMemoryStore
hit key window now s = elim (live now (get s.store key)) [
  | none ↦ hit_new (is_some (get s.store key)) key window now s
  | some c ↦ (
    record { count = c.count + 1; reset_in = seconds_left now c },
    record s { store = set s.store key (counted_up c) },
  )
]

unfoldable pub reset_by_prefix : Text → InMemoryStore → InMemoryStore
reset_by_prefix prefix s = record s {
  store = filter (λ entry. not (starts_with entry.0 prefix)) s.store;
}

unfoldable pub size : InMemoryStore → ℕ
size s = length s.store
