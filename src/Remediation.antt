-- ===== src/Remediation.antt =====
-- Governed remediation (paic/remediation): models, policy, approval, execution.
pub mod Models
pub mod Config
pub mod Severity
pub mod Policy
pub mod Decisions
pub mod Approval
pub mod Token
pub mod Effects
pub mod Executor
pub mod Generation
pub mod StateStore
pub mod Samples
mod Examples
