-- ===== src/Ai.antt =====
-- The AI module (src/core/modules/ai).
pub mod Budget
mod Tests
