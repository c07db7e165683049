-- ===== src/Runtime.antt =====
-- src/xyberos/runtime: the dependency container.
pub mod Dependencies
pub mod Examples
