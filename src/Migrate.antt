-- ===== src/Migrate.antt =====
-- The migrations (src/core/modules/migrate).
pub mod Lock
pub mod Store
pub mod Runner
mod Tests
