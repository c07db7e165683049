-- ===== src/Plugins.antt =====
-- src/xyberos/plugins: the plugins of an application.
pub mod Registry
pub mod Examples
