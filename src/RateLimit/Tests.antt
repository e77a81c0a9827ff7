-- ===== src/RateLimit/Tests.antt =====
-- The theorems on rate limiting at concrete inputs.
use nest_server.RateLimit.Legacy.{LegacyAuthRateLimiter}
use nest_server.Prelude.{
  all, filter, ◌+◌, ◌≤◌, ◌≡◌, refl, inl, true, false, some, [], ◌∷◌, arith, Text, text_eq, nat_eq,
  leb, length, starts_with, text, text_beq, any,
}
use nest_server.RateLimit.Limiter.{
  get_store, normalize_endpoint, should_skip, Limiter, Config, check, get_limit, get_key,
}
use nest_server.RateLimit.Store.Exact.{all_before, after_hits, hits_of, after_hits-count}
use nest_server.Prelude.Dict.{get}
use nest_server.RateLimit.Key.{rate_limit_key}
use nest_server.RateLimit.Store.{Counter, InMemoryStore, hit}
use nest_server.RateLimit.Store.Bounds.{hit-IsBounded}
use nest_server.RateLimit.Limiter.Laws.{counter, check-exact, check-other}

abbrev first : Text
first = b'a' ∷ []

abbrev second : Text
second = b'b' ∷ []

abbrev running : Counter
running = record { count = 2; reset_time = 100 }

-- A store of one counter, full at one, with the overflow counter of the other key.
abbrev full : InMemoryStore
full = record {
  store = (first, running) ∷ [];
  overflow = (34, running) ∷ [];
  max_entries = 1;
  at_capacity = false;
  capacity_warned = false;
}

after_hits-count_example :
    get
      (after_hits
        (record { key = first; window = 1; now = 5 }
          ∷ record { key = second; window = 1; now = 6 }
          ∷ [])
        full).store
      first
    ≡ some (record {
      count =
          2
          + hits_of first (
              record { key = first; window = 1; now = 5 }
              ∷ record { key = second; window = 1; now = 6 }
              ∷ []);
      reset_time = 100;
    })
unfolding all_before all get text_beq
after_hits-count_example =
    after_hits-count first running
      (record { key = first; window = 1; now = 5 }
        ∷ record { key = second; window = 1; now = 6 }
        ∷ [])
      full refl refl

hit-IsBounded_example : length (hit second 1 5 full).1.store ≤ 1
hit-IsBounded_example = hit-IsBounded second 1 5 full (omega arith) (omega arith)

abbrev config : Config
config = record {
  enabled = true;
  max = 5;
  max_entries = 10;
  message = [];
  skip_endpoints = [];
  strict_endpoints = text "/sign-in" ∷ [];
  window_seconds = 1;
}

abbrev sign_in : Text
sign_in = text "/sign-in"

abbrev limiter : Limiter
limiter = record {
  config = config;
  store = some (record full { store = (text "a:sign-in", running) ∷ [] });
}

check-exact_example :
    ((check first sign_in 5 limiter).0.allowed ≡ leb 3 (get_limit config sign_in))
    × (counter first sign_in (check first sign_in 5 limiter).1
        ≡ some (record { count = 3; reset_time = 100 }))
unfolding should_skip any counter get get_store text_beq text get_key rate_limit_key
    normalize_endpoint starts_with filter
check-exact_example = check-exact first sign_in 5 limiter running refl refl refl (omega arith)

check-other_example : counter first sign_in (check second sign_in 5 limiter).1 ≡ some running
unfolding counter get get_store text_beq text get_key rate_limit_key normalize_endpoint starts_with
    filter
check-other_example =
    check-other first sign_in second sign_in 5 limiter running (inl (λ e. absurd (ground arith)))
      refl (omega arith)

abbrev legacy : LegacyAuthRateLimiter
legacy = record {
  config = record { enabled = true; max = 5; message = []; window_seconds = 1 };
  store = some (record full { store = (text "a:signIn", running) ∷ [] });
}

abbrev sign_in_legacy : Text
sign_in_legacy = text "signIn"
