-- ===== src/Conf.antt =====
-- pkg/types/conf.go: loading the configuration of Multus and of its delegates.
pub mod Inject
pub mod Delegate
pub mod Runtime
pub mod Gateway
pub mod Netconf
pub mod Readiness
