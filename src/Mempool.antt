-- ===== src/Mempool.antt =====
-- pkg/core/mempool: the pool of unconfirmed transactions, kept in the order of their priority.
pub mod Tx
pub mod Tally
pub mod Pool
pub mod Order
pub mod Search
pub mod Fees
pub mod Removal
pub mod Addition
pub mod Stale
mod Examples
