-- ===== src/Storage.antt =====
-- What src/astra/storage keeps about every key.
pub mod Metadata
pub mod Manager
