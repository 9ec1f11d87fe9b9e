-- ===== src/Auth.antt =====
-- internal/auth: permissions, roles, logins and sessions.
pub mod Permissions
pub mod Model
pub mod Service
pub mod Bootstrap
mod Tests
