-- ===== src/Execution.antt =====
-- src/xyberos/execution: workflow definitions and the in-process engine.
pub mod Models
pub mod Selection
pub mod Validation
