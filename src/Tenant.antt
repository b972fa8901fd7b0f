-- ===== src/Tenant.antt =====
-- src/tenant: what keeps the tenants of one server apart.
pub mod Isolation
pub mod Quota
