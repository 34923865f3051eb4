-- ===== src/Tests.antt =====
-- The theorems at concrete inputs.
mod Netutils
mod Annotation
pub mod Delegates
mod Commands
mod Conf
mod Multus
pub mod Hosts
mod Attach
mod Teardown
mod Resources
mod Server
mod CertApprover
mod Logging
mod Entrypoint
mod Chain
mod Daemon
