-- ===== src/Primitives.antt =====
-- crates/primitives: blocks, transactions, and the cryptography that they rest on.
pub mod Bytes
pub mod Block
pub mod Transaction
pub mod Crypto
pub mod Sample
