-- ===== src/RateLimit/Legacy/Laws.antt =====
-- What the legacy limiter counts against whom.
use nest_server.Prelude.{
  ℕ, ◌+◌, ◌<◌, ◌≡◌, ◌∙◌, true, not, Option, none, some, [], ◌∷◌, arith, Text, text_eq, text_beq_iff,
  ◌==◌, leb, if◌then◌else◌, starts_with,
}
use nest_server.Prelude.Dict.{get, get-filter_keys}
use nest_server.RateLimit.Key.{rate_limit_key, rate_limit_key_prefix}
use nest_server.RateLimit.Key.RoundTrip.{starts_with-rate_limit_key_prefix}
use nest_server.RateLimit.Store.{Counter, reset_by_prefix}
use nest_server.RateLimit.Store.Exact.{hit-same}
use nest_server.RateLimit.Limiter.{judge}
use nest_server.RateLimit.Legacy.{LegacyAuthRateLimiter, check, get_store, reset}

unfoldable pub auth_counter : (ip endpoint : Text) → LegacyAuthRateLimiter → Option Counter
auth_counter ip endpoint l = get (get_store l).store (rate_limit_key (ip ∷ endpoint ∷ []))

-- In the legacy limiter, when it is enabled, an attempt whose window runs is allowed exactly if the
-- attempts counted before are fewer than the limit, and it is counted.
pub legacy_check-exact :
    (ip endpoint : Text) (now : ℕ) (l : LegacyAuthRateLimiter) (c : Counter)
    → l.config.enabled ≡ true
    → auth_counter ip endpoint l ≡ some c
    → now < c.reset_time
    → ((check ip endpoint now l).0.allowed ≡ leb (c.count + 1) l.config.max)
      × (auth_counter ip endpoint (check ip endpoint now l).1
          ≡ some (record { count = c.count + 1; reset_time = c.reset_time }))
unfolding check judge auth_counter get_store
legacy_check-exact ip endpoint now l c on there running =
    let key = rate_limit_key (ip ∷ endpoint ∷ []) in
    let step = hit-same key c l.config.window_seconds now (get_store l) running there in
    ground (arith, step)

-- After a reset of an address in the legacy limiter, it has no counter, and every other address
-- keeps its own.
pub legacy_reset-auth_counter :
    (ip ip' endpoint : Text) (l : LegacyAuthRateLimiter)
    → auth_counter ip' endpoint (reset ip l)
      ≡ (if ip' == ip then none else auth_counter ip' endpoint l)
unfolding auth_counter reset reset_by_prefix get_store
legacy_reset-auth_counter ip ip' endpoint l =
    get-filter_keys (λ k. not (starts_with k (rate_limit_key_prefix (ip ∷ [])))) (get_store l).store
      (rate_limit_key (ip' ∷ endpoint ∷ []))
    ∙ ground (arith, starts_with-rate_limit_key_prefix ip' ip (endpoint ∷ []), text_beq_iff ip' ip)
