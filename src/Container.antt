-- ===== src/Container.antt =====
-- The containers of src/astra/container.
pub mod DashMap
pub mod LinkedList
pub mod Streams
