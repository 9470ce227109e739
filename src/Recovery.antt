-- ===== src/Recovery.antt =====
-- src/paic/recovery: the verification of recovery and the lifecycle of an incident.
pub mod Models
pub mod Lifecycle
pub mod Decision
pub mod Store
pub mod Samples
mod Examples
mod StoreExamples
