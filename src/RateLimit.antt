-- ===== src/RateLimit.antt =====
-- Rate limiting: the counter store and the limiters of the authentication endpoints
-- (src/core/common/services/rate-limit-store.ts, and the two limiter services). The Redis store is
-- not modelled: its state and its script run in Redis.
pub mod Key
pub mod Store
pub mod Limiter
pub mod Legacy
mod Tests
