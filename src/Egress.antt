-- ===== src/Egress.antt =====
-- internal/egress: which external hosts the agent may reach, and how it asks for more.
pub mod Glob
pub mod Store
pub mod Pending
pub mod Proxy
pub mod Listener
pub mod Handlers
