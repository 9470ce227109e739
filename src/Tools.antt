-- ===== src/Tools.antt =====
-- The governed tool gateway (paic/tools): lineage traces, policy, ledger and invocations.
pub mod Lineage
pub mod Json
pub mod EvidenceRefs
pub mod Ledger
pub mod Policy
pub mod Bounded
pub mod Gateway
mod Examples
