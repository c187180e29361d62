-- ===== src/Storage.antt =====
-- pkg/core/storage: the in-memory store, and the store that caches changes over a lower one.
pub mod Memory
pub mod Cached
pub mod Seek
mod Examples
