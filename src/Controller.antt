-- ===== src/Controller.antt =====
-- code/internal/controller: the operator.
pub mod Stabilize
pub mod Remediation
pub mod Probe
pub mod Round
pub mod Discovery
pub mod Reconcile
pub mod Status
pub mod Polling
pub mod Resource
pub mod Sweep
pub mod Metrics
pub mod Stub
