-- ===== src/Http.antt =====
-- src/xyberos/http: the sessions of a process.
pub mod Sessions
pub mod Examples
