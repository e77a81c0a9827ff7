-- ===== src/Role/Tests.antt =====
-- The theorems on role names at concrete inputs.
use nest_server.Prelude.{text_eq}
