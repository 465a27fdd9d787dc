-- ===== src/Network.antt =====
-- crates/network/src: the peers of a node.
pub mod Peers
pub mod Sync
