-- ===== src/Remediation/Examples.antt =====
-- Examples of the theorems about src/paic/remediation, at the sample values.
mod Policy
mod Approval
mod Execution
mod Tokens
mod Store
