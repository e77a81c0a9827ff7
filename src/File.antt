-- ===== src/File.antt =====
-- Access to stored files (src/core/modules/file).
pub mod Access
mod Tests
