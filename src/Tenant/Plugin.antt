-- ===== src/Tenant/Plugin.antt =====
-- The Mongoose plugin that isolates tenants (src/core/common/plugins/mongoose-tenant.plugin.ts), on
-- schemas that declare `tenantId`. The warning about excluded schemas is not modelled.
pub mod Filter
pub mod Write
pub mod Read
pub mod Aggregate
pub mod Isolation
