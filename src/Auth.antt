-- ===== src/Auth.antt =====
-- internal/auth, and the handlers of internal/server that use it.
pub mod Sessions
pub mod Passwords
pub mod Handlers
