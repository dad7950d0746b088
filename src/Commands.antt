-- ===== src/Commands.antt =====
-- Commands of src/astra/commands.
pub mod Scan
pub mod Database
pub mod Blocking
pub mod Streams
pub mod ListCommands
