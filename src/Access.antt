-- ===== src/Access.antt =====
-- Who may do what: the guards of apps/api/src/authz and the tenant scope of packages/db.
pub mod Guards
pub mod Tenant
