-- ===== src/RateLimit/Legacy.antt =====
-- The limiter of the legacy authentication endpoints (LegacyAuthRateLimiter in
-- src/core/modules/auth/services/legacy-auth-rate-limiter.service.ts), on the process-local store.
pub mod Laws
use nest_server.Prelude.{
  ℕ, Bool, not, false, Option, none, some, [], ◌∷◌, Text, text, if◌then◌else◌, or_else,
}
use nest_server.RateLimit.Key.{rate_limit_key, rate_limit_key_prefix}
use nest_server.RateLimit.Store.{InMemoryStore, new, hit, clear, reset_by_prefix, size}
use nest_server.RateLimit.Limiter.{RateLimitResult, presence_enables, unlimited, judge}

-- IAuthRateLimit: what a project may set
pub record AuthOptions : Type 0 where
  pub enabled : Option Bool
  pub max : Option ℕ
  pub message : Option Text
  pub window_seconds : Option ℕ

-- Required<IAuthRateLimit>
pub record AuthConfig : Type 0 where
  pub enabled : Bool
  pub max : ℕ
  pub message : Text
  pub window_seconds : ℕ

unfoldable pub default_auth_config : AuthConfig
default_auth_config = record {
  enabled = false;
  max = 10;
  message = text "Too many requests, please try again later.";
  window_seconds = 60;
}

pub record LegacyAuthRateLimiter : Type 0 where
  pub config : AuthConfig
  pub store : Option InMemoryStore

unfoldable pub configure : Option AuthOptions → LegacyAuthRateLimiter → LegacyAuthRateLimiter
unfolding presence_enables
configure none l = l
configure (some o) l = record l {
  config = record {
    enabled = presence_enables o.enabled;
    max = or_else o.max default_auth_config.max;
    message = or_else o.message default_auth_config.message;
    window_seconds = or_else o.window_seconds default_auth_config.window_seconds;
  };
}

-- The store keeps its default capacity.
unfoldable pub get_store : LegacyAuthRateLimiter → InMemoryStore
get_store l = or_else l.store (new 10000)

unfoldable pub check :
    (ip endpoint : Text) (now : ℕ) → LegacyAuthRateLimiter → RateLimitResult × LegacyAuthRateLimiter
unfolding judge
check ip endpoint now l =
    if not l.config.enabled
    then (unlimited, l)
    else let (h, s) =
        hit (rate_limit_key (ip ∷ endpoint ∷ [])) l.config.window_seconds now (get_store l) in
      (judge l.config.max h.count h.reset_in, record l { store = some s })

unfoldable pub reset : (ip : Text) → LegacyAuthRateLimiter → LegacyAuthRateLimiter
reset ip l = record l {
  store = some (reset_by_prefix (rate_limit_key_prefix (ip ∷ [])) (get_store l));
}

unfoldable pub clear_all : LegacyAuthRateLimiter → LegacyAuthRateLimiter
clear_all l = record l { store = some (clear (get_store l)) }

-- getStats, the number of active entries
unfoldable pub active_entries : LegacyAuthRateLimiter → ℕ
active_entries l = elim l.store [ none ↦ 0 | some s ↦ size s ]
