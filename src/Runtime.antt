-- ===== src/Runtime.antt =====
-- internal/containerruntime: the one outer container that holds the agent-server, driven by the
-- command line of docker or podman.
pub mod Spec
pub mod Config
pub mod Docker
pub mod Startup
