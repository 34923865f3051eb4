-- ===== src/Netutils.antt =====
-- pkg/netutils/netutils.go: default routes in the cached result of a CNI plugin.
pub mod Delete
pub mod Add
pub mod Cache
pub mod Cached
pub mod Routes
pub mod Remaining
pub mod Results
pub mod Old
