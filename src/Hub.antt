-- ===== src/Hub.antt =====
-- The Hub, the operations console of the server (src/core/modules/hub).
pub mod RingBuffer
mod Tests
