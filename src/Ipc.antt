-- ===== src/Ipc.antt =====
-- sysprog/lecture_examples/7_ipc: processes that exchange data.
pub mod SharedMem
pub mod Events
pub mod Transactions
