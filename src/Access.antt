-- ===== src/Access.antt =====
-- internal/middleware and internal/domain/auth: who may pass to the upstream application.
pub mod Paths
pub mod Scopes
pub mod ApiKey
pub mod Auth
mod Tests
