-- ===== src/Lib.antt =====
-- The verification library of the incident commander: the decisions that change a system or an
-- incident's record, from src/paic.
--
-- The parts and how they interact. An investigation (src/paic/investigation/orchestrator.py)
-- asks language models through a router with fallback (src/paic/investigation/router.py), calls
-- tools within budgets, and ends in a report. A tool call goes through the gateway
-- (src/paic/tools/gateway.py), which asks a policy (src/paic/tools/policy.py), bounds the
-- result, and appends the call to a hash-chained ledger (src/paic/tools/ledger.py). The policy
-- (src/paic/remediation/policy.py) assesses a proposal of actions against the report and the
-- control state and builds a plan. Approvers append signed decisions to a hash-chained ledger
-- (src/paic/remediation/approval.py), whose evaluation gives an approval status; an approved
-- status lets a token be issued. The executor (src/paic/remediation/executor.py) checks the
-- plan, the token and the control state, applies the actions to the state, and returns the next
-- state with a receipt; from the receipt it makes a rollback proposal, and it audits a pair of
-- states against a receipt. The state store (src/paic/remediation/state_store.py) keeps the
-- generations of a control state on disk and commits an execution by replacing a pointer. After
-- that the recovery engine (src/paic/recovery/engine.py) judges the metrics, and the lifecycle
-- (src/paic/recovery/lifecycle.py) applies its reports to the state of the incident.
--
-- Which file models which part:
--   Base           Boolean tests, lists over native numbers, results, membership, sorting
--   Chain          what hash chains have in common
--   Investigation  Report (what remediation reads of investigation/models.py), Models (what a model
--                  call returns), Router (investigation/router.py), Orchestrator
--                  (investigation/orchestrator.py), Proposal (the models of a proposal,
--                  investigation/models.py), Comparison (their `==`), Probability
--                  (investigation/probability.py)
--   Remediation    Models and Models/Plan (remediation/models.py), Config (config.py and the digests),
--                  Severity and Policy (policy.py), Decisions, Approval and Token (approval.py),
--                  Effects and Executor (executor.py), Generation and StateStore (state_store.py)
--   Tools          Lineage, EvidenceRefs, Bounded and Gateway (tools/gateway.py and models.py), Policy
--                  (policy.py and the tables of catalogue.py), Ledger (ledger.py), Json (the values
--                  they work on)
--   Recovery       Models (recovery/models.py and config.py), Decision (engine.py), Lifecycle
--                  (lifecycle.py, `transition_state`), Store (lifecycle.py, `RecoveryStateStore`)
-- A function keeps its name in the source; a leading underscore is dropped. The children of a
-- component's module hold its theorems, and Samples and Examples hold concrete values and runs.
--
-- How state and errors are modelled. A model of the validation library is a record; its list
-- bounds and validators are a test `..._is_valid`, which the code that constructs the model
-- applies. Code that raises returns `Result`, with one constructor of the error for each
-- message. State is passed: `execute_plan` takes a control state and returns the next. A
-- dictionary of resources is its lookup function. A hash is a model with its digest beside its
-- other fields, which are a record of their own, since the digest is of those. What is on disk
-- is a record: the state store is its metadata, its pointer, the presence of a staged pointer
-- that was never put in place, and its generations; a call changes it by a sequence of effects,
-- and a process may stop, or the file system end the call, between two of them. The store of an
-- incident's record is its policy, its first state, the generations up to the one that the
-- pointer names, and the names of the directories that interrupted calls left beside them.
--
-- Numbers. Python's integers are the native numbers; every one here is non-negative. A time is
-- the number of microseconds since a fixed instant, and a duration is as exact. A non-negative
-- finite double that is only compared is a multiple of 2^-1074, so that comparison is exact.
-- Loops are structural recursions on a list, or on the rounds that the budget or the depth
-- allows. Two loops have fuel: the queue over a tool's result has one unit for each value in it,
-- and the removal of rows one for each row.
--
-- Parameters. SHA-256 and HMAC of the dump of a model, the JSON text of a token's claims and its
-- reading, and the environment are fields of the record `Crypto`; those of recovery are the
-- record `Digests`, and those of the tools the record `Python` with the other parts of the
-- library that they use (reading JSON, lower case, the pattern of paths). Arithmetic on doubles
-- in the score of a proposal is the record `Floats`. Only the theorems that need it assume that
-- digests do not collide, and only on the records they are about.
--
-- What is not modelled: files, locks and command lines; text patterns and the length bounds of
-- text, except the pattern of the two manifest hashes that a plan is built from; the validators
-- of the inverse actions and of the rollback proposal, which are built from an execution that
-- returned; the exceptions of a tool or of its sources that `invoke` does not catch, which leave
-- it; the floating-point statistics of one metric; the engines over data frames (analytics,
-- detection, evidence, impact), the simulator and the terminal interface. The argument models of
-- the tools, the queries over their tables, the answers of language models and tools in the
-- loop, and the score of a proposal, are arguments of the loop that uses them.
pub mod Base
pub mod Chain
pub mod Investigation
pub mod Recovery
pub mod Remediation
pub mod Tools
