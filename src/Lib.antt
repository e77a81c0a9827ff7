-- ===== src/Lib.antt =====
-- A verification library of nest-server, a NestJS server framework with multi-tenancy, rate limits
-- and an operations console. It models the parts that decide who sees what, as functions on values.
--
-- The parts, and where they stand:
-- * Role (src/core/common/enums/role.enum.ts): the names of system roles and of roles that only the
--   platform grants, and the tests on names that the tenant code and the storage share.
-- * Tenant.Config, Tenant.Hierarchy, Tenant.Scope, Tenant.Boundary
--   (src/core/modules/tenant/core-tenant.helpers.ts, core-role-scope.registry.ts,
--   core-tenant.enums.ts): the options, checkRoleAccess, the registry of role scopes, the split of
--   required roles into global and tenant roles, and the boot check of the vocabulary.
-- * Tenant.Guard (src/core/modules/tenant/core-tenant.guard.ts): Guard.State has the request, the
--   caches and the outcomes; Guard.Cache the two cached lookups and their invalidation;
--   Guard.Activate has canActivate as an action on a world of guard and request, in which what was
--   written before an exception stays written; Guard.Resolve has resolveTenantContext.
-- * Tenant.Membership (src/core/modules/tenant/core-tenant.service.ts): which roles a membership
--   may be given; Membership.Members has addMember, removeMember, updateMemberRole and the rule of
--   the last owner over the collection as an interface (MemberModel, with MemberLaws), and tells
--   the tenant guard whom to forget.
-- * Tenant.Plugin (src/core/common/plugins/mongoose-tenant.plugin.ts): Plugin.Filter has the
--   decisions, Plugin.Read the query hook and estimatedDocumentCount, Plugin.Write the hooks on
--   documents, Plugin.Aggregate the pipelines. The guard writes the request, the middleware
--   (src/core/common/middleware/request-context.middleware.ts) shows it to the plugin, and
--   Plugin.Isolation puts them together.
-- * RateLimit.Key, RateLimit.Store (src/core/common/services/rate-limit-store.ts): the keys and the
--   process-local store; RateLimit.Limiter
--   (src/core/modules/better-auth/core-better-auth-rate-limiter.service.ts): the limiter over it;
--   RateLimit.Legacy (src/core/modules/auth/services/legacy-auth-rate-limiter.service.ts): the
--   limiter of the legacy endpoints over the same store.
-- * Auth.RolesGuard (src/core/modules/auth/guards/roles.guard.ts) and Auth.BetterAuthGuard
--   (src/core/modules/better-auth/better-auth-roles.guard.ts): the two guards that check the roles of
--   an endpoint before the tenant guard; Auth.User has what both read, and Auth.TokenService
--   (src/core/modules/better-auth/better-auth-token.service.ts) finds the user of a token, and Auth.Mapper
--   (src/core/modules/better-auth/core-better-auth-user.mapper.ts) is the user of a session.
-- * Restricted (src/core/common/decorators/restricted.decorator.ts, src/core/common/helpers/id.helper.ts):
--   checkRestricted on trees. Data has the values and their ids, Validate the check of one
--   restriction, which asks the tenant helpers, Check the walk through objects and arrays.
-- * RolePlugin (src/core/common/plugins/mongoose-role-guard.plugin.ts): the hooks that strip roles.
-- * AuditFields (src/core/common/plugins/mongoose-audit-fields.plugin.ts): the hooks that fill in who
--   created and who updated a document.
-- * Migrate.Lock and Migrate.Store (src/core/modules/migrate/mongo-state-store.ts): the lock of the
--   migrations as a transition system of processes, and their state; Migrate.Runner
--   (src/core/modules/migrate/migration-runner.ts): up, down and status over that state.
-- * Ai.Budget (src/core/modules/ai/services/core-ai-budget.service.ts): the limits of users and tenants,
--   what blocks a run, what is reported; Budget.Summary the summary of an answer.
-- * File.Access (src/core/modules/file/file-access.helper.ts): the preset rules for file access.
-- * Hub.RingBuffer (src/core/modules/hub/hub-ring-buffer.ts): the buffer of log and trace entries,
--   against the history of all entries as its specification.
-- Prelude has the shared tests, lists, texts (UTF-16 code units) and maps in insertion order.
--
-- Numbers are natural numbers, as are times; an overflow slot is a hash on 32 bits, written out.
-- The one use of fuel is the decimal print of a level (Tenant.Guard.Cache.decimal_from), which gets
-- one unit more than the number, while each step divides it by ten. All other loops are
-- structural. The capacity of the caches is 500 entries, as in the source.
--
-- Parameters: the collection of memberships and its queries (MemberModel, with Answers for what the
-- guard's queries promise and MemberLaws for what the service's operations do), Mongoose's `where` and
-- the selection of rows (Database), Passport, the BetterAuth library and the users' collection, the metadata of the decorators,
-- the directory, the modules and the effect of migrations, the aggregation over AI interactions. The
-- theorems on the caches ask that a user's id has no colon, which holds of MongoDB's identifiers.
--
-- Not modelled: Redis (the shared store, the channel of invalidations), timers, logs, and, but for the
-- lock of the migrations, the order of concurrent requests: each handler runs as one step. Nor are the
-- other modules of the server.
pub mod Prelude
pub mod Role
pub mod RateLimit
pub mod Tenant
pub mod Hub
pub mod File
pub mod Ai
pub mod Migrate
pub mod Auth
pub mod Restricted
pub mod RolePlugin
pub mod AuditFields
