-- ===== src/K8sclient.antt =====
-- pkg/k8sclient/k8sclient.go: the networks that a pod asks for, and the delegates they become.
pub mod Annotation
pub mod Client
pub mod Device
pub mod Delegates
pub mod Defaults
pub mod Status
