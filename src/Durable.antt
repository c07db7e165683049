-- ===== src/Durable.antt =====
-- src/xyberos/durable: the durable executor.
pub mod Models
pub mod Rows
pub mod Txn
pub mod Store
pub mod Scheduler
pub mod Definitions
pub mod Work
pub mod Recovery
pub mod Worker
pub mod Examples
