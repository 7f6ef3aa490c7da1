-- ===== src/Storage.antt =====
-- sysprog/afina/src/storage: the bounded LRU store `SimpleLRU`. `Nodes` and `Lru` define it, the
-- other children prove what it keeps.
pub mod Nodes
pub mod Lru
pub mod History
mod Tests
pub mod Interface
pub mod Implementation
pub mod Locked
