-- ===== src/Cluster.antt =====
-- The distribution of keys over shards, src/astra/cluster.
pub mod Slots
pub mod Shards
