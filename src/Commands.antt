-- ===== src/Commands.antt =====
-- src/commands: what the subcommands of the binary do.
pub mod Restore
pub mod Save
pub mod Run
pub mod Verify
pub mod Seed
pub mod Import
pub mod Export
