-- ===== src/Hash.antt =====
-- pkg/crypto/hash: the Merkle tree of a block's transactions.
pub mod Merkle
mod Examples
