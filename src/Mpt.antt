-- ===== src/Mpt.antt =====
-- pkg/core/mpt: the Merkle Patricia trie of the contract storage.
pub mod Node
pub mod Nibbles
pub mod Trie
pub mod Proof
mod Examples
mod SavedExamples
