-- ===== src/RateLimit/Limiter.antt =====
-- The limiter of the BetterAuth endpoints (CoreBetterAuthRateLimiter), on the process-local store.
-- Its messages to the log are not modelled.
pub mod Laws
use nest_server.Prelude.{
  ℕ, zero, suc, ◌+◌, ◌-◌, ◌/◌, Bool, true, false, not, ◌||◌, Option, none, some, List, [], ◌∷◌,
  ◌++◌, Text, text, text_eq, ◌==◌, leb, eqb, if◌then◌else◌, or_else, any, is_empty, filter,
  starts_with,
}
use nest_server.RateLimit.Key.{rate_limit_key, rate_limit_key_prefix}
use nest_server.RateLimit.Store.{InMemoryStore, new, hit, clear, reset_by_prefix, size}

-- a number or Infinity
pub data Amount : Type 0 where
  finite : ℕ → Amount
  infinity : Amount

pub record RateLimitResult : Type 0 where
  pub allowed : Bool
  pub current : ℕ
  pub limit : Amount
  pub remaining : Amount
  pub reset_in : ℕ

-- IBetterAuthRateLimit: what a project may set; an option that is set to undefined is not modelled
pub record Options : Type 0 where
  pub enabled : Option Bool
  pub max : Option ℕ
  pub max_entries : Option ℕ
  pub message : Option Text
  pub skip_endpoints : Option (List Text)
  pub strict_endpoints : Option (List Text)
  pub window_seconds : Option ℕ

-- Required<IBetterAuthRateLimit>
pub record Config : Type 0 where
  pub enabled : Bool
  pub max : ℕ
  pub max_entries : ℕ
  pub message : Text
  pub skip_endpoints : List Text
  pub strict_endpoints : List Text
  pub window_seconds : ℕ

unfoldable pub default_config : Config
unfolding text
default_config = record {
  enabled = false;
  max = 10;
  max_entries = 10000;
  message = text "Too many requests, please try again later.";
  skip_endpoints = text "/session" ∷ text "/callback" ∷ [];
  strict_endpoints =
      text "/sign-in"
      ∷ text "/sign-up"
      ∷ text "/request-password-reset"
      ∷ text "/forget-password"
      ∷ text "/forgot-password"
      ∷ text "/reset-password"
      ∷ text "/change-password"
      ∷ [];
  window_seconds = 60;
}

-- The store is made at its first use.
pub record Limiter : Type 0 where
  pub config : Config
  pub store : Option InMemoryStore

unfoldable pub initial : Limiter
initial = record { config = default_config; store = none }

-- `config.enabled !== false`
unfoldable pub presence_enables : Option Bool → Bool
presence_enables none = true
presence_enables (some b) = b

unfoldable pub configure : Option Options → Limiter → Limiter
unfolding presence_enables
configure none l = l
configure (some o) l = record l {
  config = record {
    enabled = presence_enables o.enabled;
    max = or_else o.max default_config.max;
    max_entries = or_else o.max_entries default_config.max_entries;
    message = or_else o.message default_config.message;
    skip_endpoints = or_else o.skip_endpoints default_config.skip_endpoints;
    strict_endpoints = or_else o.strict_endpoints default_config.strict_endpoints;
    window_seconds = or_else o.window_seconds default_config.window_seconds;
  };
}

-- s.includes(p)
unfoldable pub has_part : Text → Text → Bool
has_part [] p = is_empty p
has_part (c ∷ s) p = starts_with (c ∷ s) p || has_part s p

-- s.endsWith(p)
unfoldable pub ends_with : Text → Text → Bool
ends_with [] p = is_empty p
ends_with (c ∷ s) p = (c ∷ s) == p || ends_with s p

-- The test that both endpoint lists are searched with.
unfoldable pub matches_endpoint : Text → Text → Bool
matches_endpoint path entry = path == entry || ends_with path entry || has_part path entry

unfoldable pub should_skip : Config → Text → Bool
should_skip config path = any (matches_endpoint path) config.skip_endpoints

unfoldable pub get_limit : Config → Text → ℕ
get_limit config path =
    if any (matches_endpoint path) config.strict_endpoints then (config.max + 1) / 2 else config.max

-- s.split(d)[0]
unfoldable pub before : ℕ → Text → Text
before d [] = []
before d (c ∷ s) = let rest = before d s in if eqb c d then [] else c ∷ rest

-- s.split(d), with the segment that is being read
unfoldable pub split_from : ℕ → Text → Text → List Text
split_from d [] segment = segment ∷ []
split_from d (c ∷ s) segment =
    let next = split_from d s [] in
    let same = split_from d s (segment ++ c ∷ []) in if eqb c d then segment ∷ next else same

-- segments[segments.length - 1] || d
unfoldable pub last_or : Text → List Text → Text
last_or d [] = d
last_or d (x ∷ []) = x
last_or d (x ∷ y ∷ xs) = last_or d (y ∷ xs)

unfoldable pub normalize_endpoint : Text → Text
unfolding before split_from last_or has_part text
normalize_endpoint path =
    let clean_path = before b'?' path in
    if has_part clean_path (text "/callback/")
    then text "callback"
    else last_or (text "root") (filter (λ s. not (is_empty s)) (split_from b'/' clean_path []))

unfoldable pub get_key : Text → Text → Text
get_key ip path = rate_limit_key (ip ∷ normalize_endpoint path ∷ [])

unfoldable pub get_store : Limiter → InMemoryStore
get_store l = or_else l.store (new l.config.max_entries)

abbrev pub unlimited : RateLimitResult
unlimited = record {
  allowed = true;
  current = 0;
  limit = infinity;
  remaining = infinity;
  reset_in = 0;
}

-- The answer to a hit, under a limit.
unfoldable pub judge : (limit count reset_in : ℕ) → RateLimitResult
judge limit count reset_in = record {
  allowed = leb count limit;
  current = count;
  limit = finite limit;
  remaining = finite (limit - count);
  reset_in = reset_in;
}

unfoldable pub check : (ip path : Text) (now : ℕ) → Limiter → RateLimitResult × Limiter
unfolding judge
check ip path now l =
    if not l.config.enabled
    then (unlimited, l)
    else (if should_skip l.config path
        then (unlimited, l)
        else let (h, s) = hit (get_key ip path) l.config.window_seconds now (get_store l) in
          (judge (get_limit l.config path) h.count h.reset_in, record l { store = some s }))

unfoldable pub reset : (ip : Text) → Limiter → Limiter
reset ip l = record l {
  store = some (reset_by_prefix (rate_limit_key_prefix (ip ∷ [])) (get_store l));
}

unfoldable pub clear_all : Limiter → Limiter
clear_all l = record l { store = some (clear (get_store l)) }

-- getStats, the number of active entries
unfoldable pub active_entries : Limiter → ℕ
active_entries l = elim l.store [ none ↦ 0 | some s ↦ size s ]
