-- ===== src/Multus.antt =====
-- pkg/multus/multus.go: how delegates are called.
pub mod Calls
pub mod Plugins
pub mod World
pub mod Pod
pub mod Scratch
pub mod Host
pub mod Attach
pub mod Commands
pub mod Add
pub mod Del
pub mod Gc
