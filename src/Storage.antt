-- ===== src/Storage.antt =====
-- crates/storage: the cache over the database and the engine that prunes old blocks.
pub mod Cache
pub mod Pruning
pub mod Database
