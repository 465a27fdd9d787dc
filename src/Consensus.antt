-- ===== src/Consensus.antt =====
-- crates/consensus: the Proof-of-Authority engine and the validator set that governs it.
pub mod Governance
pub mod Poa
