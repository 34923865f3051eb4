-- ===== src/Server.antt =====
-- pkg/server: the configuration of the daemon and its requests.
pub mod Config
pub mod Requests
pub mod Handlers
pub mod Api
pub mod Router
pub mod Start
