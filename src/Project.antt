-- ===== src/Project.antt =====
-- internal/project: the control-plane record of each project and its pair of ports.
pub mod Name
pub mod Ports
pub mod Store
pub mod Manager
pub mod Agent
pub mod Health
pub mod Handlers
