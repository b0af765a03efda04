-- ===== src/Terminal.antt =====
-- internal/terminal: sessions of an interactive shell, with replay of their output.
pub mod Fanout
pub mod Ring
pub mod Sessions
pub mod Container
pub mod Local
pub mod Socket
pub mod Shell
