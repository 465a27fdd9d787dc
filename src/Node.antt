-- ===== src/Node.antt =====
-- crates/node/src: the chain that a node follows.
pub mod Reorg
pub mod Chain
pub mod Producer
