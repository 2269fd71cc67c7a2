-- ===== src/Commands.antt =====
-- src/cli.rs and src/commands: who runs a command, and what the commands do around the store.
pub mod Caller
pub mod Registry
pub mod Watch
