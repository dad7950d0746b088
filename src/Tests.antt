-- ===== src/Tests.antt =====
-- Runs on concrete inputs, and the theorems at inputs that meet their hypotheses. The tables are
-- the association lists of Abseil/Model.antt.
pub mod Containers
pub mod Storage
pub mod Server
pub mod Protocol
pub mod Connection
pub mod Commands
pub mod Database
pub mod Cluster
pub mod Blocking
pub mod Eviction
pub mod Security
pub mod Streams
pub mod ListCommands
