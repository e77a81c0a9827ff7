-- ===== src/RateLimit/Store/Exact.antt =====
-- What the counters count.
use nest_server.Prelude.{
  ℕ, ◌+◌, ◌<◌, ◌≡◌, ◌≢◌, refl, sym, ◌∙◌, Bool, true, false, not, some, List, [], ◌∷◌, arith, Text,
  text_eq, text_beq_iff, nat_eq, ◌==◌, ltb, leb, if◌then◌else◌, filter, all, Option-cases,
  Bool-cases, inl, inr, beq_ne, beq_refl, false≢true,
}
use nest_server.Prelude.Dict.{Dict, get, set, get-set}
use nest_server.RateLimit.Store.{
  Counter, InMemoryStore, live, hit, hit_new, hit_full, hit_overflow, open_window, evict_oldest,
  remove_expired, fresh_counter, counted_up,
}

-- A counter that has not run out survives the removal of those that have.
get-filter_live :
    (now : ℕ) (m : Dict Text Counter) (k : Text) (c : Counter)
    → now < c.reset_time
    → get m k ≡ some c
    → get (filter (λ entry. not (leb entry.1.reset_time now)) m) k ≡ some c
unfolding get filter
get-filter_live now [] k c h e = cc
get-filter_live now ((j, d) ∷ m) k c h e = ground (arith, get-filter_live now m k c h)

-- Setting another key is not seen.
get-set_other :
    (m : Dict Text Counter) (k j : Text) (d : Counter) → k ≢ j → get (set m k d) j ≡ get m j
get-set_other m k j d other = rw (get-set m k j d) (rw (beq_ne k j other) refl)

get-set_same : (m : Dict Text Counter) (k : Text) (d : Counter) → get (set m k d) k ≡ some d
get-set_same m k d = rw (get-set m k k d) (rw (beq_refl k) refl)

module _ (key : Text) (c : Counter) where
  open_window-other :
      (k : Text) (window now : ℕ) (s : InMemoryStore)
      → k ≢ key
      → get s.store key ≡ some c
      → get (open_window k window now s).1.store key ≡ some c
  unfolding open_window
  open_window-other k window now s other there =
      get-set_other s.store k key (fresh_counter window now) other ∙ there

  hit_overflow-store :
      (k : Text) (window now : ℕ) (s : InMemoryStore)
      → (hit_overflow k window now s).1.store ≡ s.store
  unfolding hit_overflow
  hit_overflow-store k window now s = ground arith

  evict_oldest-live :
      (now : ℕ) (s : InMemoryStore)
      → now < c.reset_time
      → get s.store key ≡ some c
      → get (evict_oldest now s).store key ≡ some c
  unfolding evict_oldest remove_expired
  evict_oldest-live now s running there =
      ground (arith, get-filter_live now s.store key c running there)

  hit_full-other :
      (k : Text) (window now : ℕ) (s : InMemoryStore)
      → k ≢ key
      → now < c.reset_time
      → get s.store key ≡ some c
      → get (hit_full k window now s).1.store key ≡ some c
  unfolding hit_full
  hit_full-other k window now s other running there =
      let s' = evict_oldest now (record s { at_capacity = false }) in
      let kept = evict_oldest-live now (record s { at_capacity = false }) running there in
      ground (
        arith,
        kept,
        open_window-other k window now s' other kept,
        hit_overflow-store k window now (record s' { capacity_warned = true }),
      )

  -- A hit of another key at a time when the counter is live leaves it.
  pub hit-other :
      (k : Text) (window now : ℕ) (s : InMemoryStore)
      → k ≢ key
      → now < c.reset_time
      → get s.store key ≡ some c
      → get (hit k window now s).1.store key ≡ some c
  unfolding hit hit_new
  hit-other k window now s other running there = elim (Option-cases (live now (get s.store k))) [
    | inl new ↦
        rw (new, hit)
          (ground (
            arith,
            hit_full-other k window now s other running there,
            open_window-other k window now s other there,
          ))
    | inr (d, old) ↦ rw (old, hit) (get-set_other s.store k key (counted_up d) other ∙ there)
  ]

  pub hit-same :
      (window now : ℕ) (s : InMemoryStore)
      → now < c.reset_time
      → get s.store key ≡ some c
      → ((hit key window now s).0.count ≡ c.count + 1)
        × (get (hit key window now s).1.store key ≡ some (record c { count = c.count + 1 }))
  unfolding hit live
  hit-same window now s running there =
      ground (arith, get-set_same s.store key (record c { count = c.count + 1 }))

pub record Call : Type 0 where
  pub key : Text
  pub window : ℕ
  pub now : ℕ

-- The store after a sequence of hits, the first first.
unfoldable pub after_hits : List Call → InMemoryStore → InMemoryStore
after_hits [] s = s
after_hits (call ∷ calls) s = after_hits calls (hit call.key call.window call.now s).1

-- How many of the hits are of a key.
unfoldable pub hits_of : Text → List Call → ℕ
hits_of key [] = 0
hits_of key (call ∷ calls) =
    let rest = hits_of key calls in if call.key == key then rest + 1 else rest

-- All of the hits come before a time.
unfoldable pub all_before : ℕ → List Call → Bool
all_before t calls = all (λ call. ltb call.now t) calls

-- Over a sequence of hits that all come before its reset time, a counter in the store counts exactly
-- the hits of its key: hits of other keys, the
-- removal of expired counters and a full store do not change it.
pub after_hits-count :
    (key : Text) (c : Counter) (calls : List Call) (s : InMemoryStore)
    → all_before c.reset_time calls ≡ true
    → get s.store key ≡ some c
    → get (after_hits calls s).store key
      ≡ some (record { count = c.count + hits_of key calls; reset_time = c.reset_time })
unfolding after_hits hits_of all_before all
after_hits-count key c [] s early there = ground arith
after_hits-count key c (call ∷ calls) s early there = elim (Bool-cases (call.key == key)) [
  | inl same ↦
      let on_key : call.key ≡ key = (text_beq_iff call.key key).0 same in
      let c' : Counter = record c { count = c.count + 1 } in
      let step = hit-same key c call.window call.now s (ground arith) there in
      let here : get (hit call.key call.window call.now s).1.store key ≡ some c' =
        rw on_key step.1 in
      let rest =
        after_hits-count key c' calls (hit call.key call.window call.now s).1 (ground arith) here in
      ground (arith, rest, same)
  | inr different ↦
      let other : call.key ≢ key =
        λ e. false≢true (sym different ∙ (text_beq_iff call.key key).1 e) in
      let step = hit-other key c call.key call.window call.now s other (ground arith) there in
      let rest =
        after_hits-count key c calls (hit call.key call.window call.now s).1 (ground arith) step in
      ground (arith, rest, different)
]
