-- ===== src/Admin.antt =====
-- internal/middleware: the endpoints below /_vibewarden/ that operators use, and who may use them.
pub mod Auth
pub mod Gate
pub mod Locked
pub mod Lockout
pub mod Maintenance
pub mod Ready
mod Tests
