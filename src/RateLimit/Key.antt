-- ===== src/RateLimit/Key.antt =====
-- Keys of counters (rateLimitKey and rateLimitKeyPrefix).
pub mod RoundTrip
use nest_server.Prelude.{ℕ, Bool, List, [], ◌∷◌, ◌++◌, map, Text, eqb, if◌then◌else◌}

-- part.replace(/d/g, '\\d'): a backslash before each `d`
unfoldable pub escape_unit : ℕ → Text → Text
escape_unit d [] = []
escape_unit d (c ∷ s) = let rest = escape_unit d s in if eqb c d then b'\\' ∷ c ∷ rest else c ∷ rest

-- backslashes first, then colons
unfoldable pub escape_part : Text → Text
unfolding escape_unit
escape_part part = escape_unit b':' (escape_unit b'\\' part)

-- parts.join(':')
unfoldable pub join : List Text → Text
join [] = []
join (p ∷ []) = p
join (p ∷ q ∷ ps) = p ++ b':' ∷ join (q ∷ ps)

unfoldable pub rate_limit_key : List Text → Text
unfolding escape_part join
rate_limit_key parts = join (map escape_part parts)

unfoldable pub rate_limit_key_prefix : List Text → Text
unfolding rate_limit_key
rate_limit_key_prefix parts = rate_limit_key parts ++ b':' ∷ []
