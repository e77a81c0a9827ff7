-- ===== src/Tenant/Guard.antt =====
-- The guard of all tenant requests (src/core/modules/tenant/core-tenant.guard.ts).
pub mod State
pub mod Cache
pub mod Activate
pub mod Resolve
