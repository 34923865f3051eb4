-- ===== src/CertApprover.antt =====
-- cmd/cert-approver/main.go: the controller that approves or denies the certificate signing
-- requests of the nodes, and its retries.
pub mod Decision
pub mod Queueing
