-- ===== src/Tenant.antt =====
-- Multi-tenancy (src/core/modules/tenant, and the tenant plugin in src/core/common/plugins).
pub mod Config
pub mod Hierarchy
pub mod Scope
pub mod Boundary
pub mod Membership
pub mod Guard
pub mod Plugin
mod Tests
