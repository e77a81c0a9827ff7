-- ===== src/RateLimit/Limiter/Laws.antt =====
-- What the limiter counts against whom.
use nest_server.Prelude.{
  ℕ, ◌+◌, ◌<◌, ◌≡◌, ◌≢◌, ◌⊎◌, inl, inr, ◌∙◌, true, false, not, Option, none, some, [], ◌∷◌, arith,
  Text, text_eq, text_beq_iff, ◌==◌, leb, if◌then◌else◌, starts_with,
}
use nest_server.Prelude.Dict.{get, get-filter_keys}
use nest_server.RateLimit.Key.{rate_limit_key_prefix}
use nest_server.RateLimit.Key.RoundTrip.{rate_limit_key_inj, starts_with-rate_limit_key_prefix}
use nest_server.RateLimit.Store.{Counter, reset_by_prefix}
use nest_server.RateLimit.Store.Exact.{hit-same, hit-other}
use nest_server.RateLimit.Limiter.{
  Limiter, check, judge, reset, get_store, get_key, get_limit, should_skip, normalize_endpoint,
}

-- The counter of a caller's endpoint.
unfoldable pub counter : (ip path : Text) → Limiter → Option Counter
counter ip path l = get (get_store l).store (get_key ip path)

-- When the limiter is enabled and does not skip the path, a request whose window runs is allowed
-- exactly if the requests counted before are fewer than the
-- endpoint's limit, and it is counted.
pub check-exact :
    (ip path : Text) (now : ℕ) (l : Limiter) (c : Counter)
    → l.config.enabled ≡ true
    → should_skip l.config path ≡ false
    → counter ip path l ≡ some c
    → now < c.reset_time
    → ((check ip path now l).0.allowed ≡ leb (c.count + 1) (get_limit l.config path))
      × (counter ip path (check ip path now l).1
          ≡ some (record { count = c.count + 1; reset_time = c.reset_time }))
unfolding check judge counter get_store
check-exact ip path now l c on counted there running =
    let step =
      hit-same (get_key ip path) c l.config.window_seconds now (get_store l) running there in
    ground (arith, step)

get_key-apart :
    (ip path ip' path' : Text)
    → (ip' ≢ ip) ⊎ (normalize_endpoint path' ≢ normalize_endpoint path)
    → get_key ip' path' ≢ get_key ip path
unfolding get_key
get_key-apart ip path ip' path' (inl h) same = h (rate_limit_key_inj ip' ip _ _ same).0
get_key-apart ip path ip' path' (inr h) same =
    let rest = (rate_limit_key_inj ip' ip _ _ same).1 in h (cc rest)

-- Requests of another address, or for another endpoint, leave a caller's running counter alone.
pub check-other :
    (ip path ip' path' : Text) (now : ℕ) (l : Limiter) (c : Counter)
    → (ip' ≢ ip) ⊎ (normalize_endpoint path' ≢ normalize_endpoint path)
    → counter ip path l ≡ some c
    → now < c.reset_time
    → counter ip path (check ip' path' now l).1 ≡ some c
unfolding check counter get_store
check-other ip path ip' path' now l c different there running =
    let other : get_key ip' path' ≢ get_key ip path = get_key-apart ip path ip' path' different in
    let step =
      hit-other (get_key ip path) c (get_key ip' path') l.config.window_seconds now (get_store l)
        other running there in
    ground (arith, step)

-- After a reset of an address, it has no counter, and every other address keeps its own.
pub reset-counter :
    (ip ip' path : Text) (l : Limiter)
    → counter ip' path (reset ip l) ≡ (if ip' == ip then none else counter ip' path l)
unfolding counter reset reset_by_prefix get_store get_key
reset-counter ip ip' path l =
    get-filter_keys (λ k. not (starts_with k (rate_limit_key_prefix (ip ∷ [])))) (get_store l).store
      (get_key ip' path)
    ∙ ground (
      arith,
      starts_with-rate_limit_key_prefix ip' ip (normalize_endpoint path ∷ []),
      text_beq_iff ip' ip,
    )
