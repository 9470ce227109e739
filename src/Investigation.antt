-- ===== src/Investigation.antt =====
-- src/paic/investigation: reports, the routing of model calls, the loop, and the score of a
-- proposal.
pub mod Report
pub mod Models
pub mod Proposal
pub mod Comparison
pub mod Probability
pub mod Router
pub mod Orchestrator
mod Examples
