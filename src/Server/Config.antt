-- ===== src/Server/Config.antt =====
-- pkg/server/config: the configuration of Multus that the daemon generates and keeps up to date.
pub mod Generator
pub mod Primary
pub mod Manager
pub mod Monitor
