-- ===== src/Auth.antt =====
-- The two guards that check the roles of an endpoint (src/core/modules/auth/guards/roles.guard.ts and
-- src/core/modules/better-auth/better-auth-roles.guard.ts).
pub mod User
pub mod RolesGuard
pub mod BetterAuthGuard
pub mod Sound
pub mod Agreement
pub mod TokenService
pub mod Mapper
pub mod Stored
pub mod Known
mod Tests
