-- ===== src/Investigation/Orchestrator/Invariant.antt =====
-- What the loop of src/paic/investigation/orchestrator.py keeps true: its budgets, the numbering of
-- the trace, the chain of events, and that observed evidence comes from successful tool calls.
use probabilistic_ai_inciden.Base.{
  ℕ, suc, ◌≤◌, ◌≡◌, String, Option, none, some, List, [], ◌∷◌, ◌++◌, length, string_eq, ok,
}
use probabilistic_ai_inciden.Base.Membership.{In}
use probabilistic_ai_inciden.Chain.{Chained}
use probabilistic_ai_inciden.Investigation.Report.{InvestigationReport}
use probabilistic_ai_inciden.Investigation.Models.{ProviderToolCall, ProviderResponse}
use probabilistic_ai_inciden.Investigation.Orchestrator.{
  success, hashes_eq, ToolTraceEntry, provider_response, proposal_accepted, EventBody,
  TranscriptEvent, Session, World, InvestigationConfig, first_hash, new_event,
}

abbrev event_body : TranscriptEvent → EventBody
event_body e = e.body

abbrev event_hash : TranscriptEvent → String
event_hash e = e.event_sha256

-- The entries are numbered from the number that is given.
abbrev pub Numbered : ℕ → List ToolTraceEntry → Type 0
Numbered n [] = Unit
Numbered n (e ∷ rest) = (e.sequence ≡ n) × Numbered (suc n) rest

-- The event transcript is a hash chain.
abbrev pub Linked : World → ℕ → String → List TranscriptEvent → Type 0
Linked world =
    Chained event_body event_hash (λ (b : EventBody). b.sequence)
      (λ (b : EventBody). b.previous_event_sha256) world.event_digest

-- The evidence was returned by a tool call in the trace that succeeded.
abbrev pub Grounded : String → List ToolTraceEntry → Type 0
Grounded id trace =
    (e : ToolTraceEntry) × In e trace × (e.execution_status ≡ success) × In id e.evidence_record_ids

pub record Sound (world : World) (config : InvestigationConfig) (s : Session) : Type 0 where
  pub calls_bounded : s.tool_calls ≤ config.budget.max_tool_calls
  pub tokens_bounded : s.total_tokens ≤ config.budget.max_total_tokens
  pub failures_bounded : s.router.failures ≤ config.budget.max_provider_failures
  pub calls_counted : length s.trace ≡ s.tool_calls
  pub numbered : Numbered 1 s.trace
  pub linked : Linked world 1 first_hash s.events
  pub grounded : (id : String) → In id s.observed_evidence → Grounded id s.trace

-- The call is the only one of the last response, and it submits a proposal.
abbrev pub Submitted : World → ProviderToolCall → List TranscriptEvent → Type 0
Submitted world call events =
    (older : List TranscriptEvent) × (response : ProviderResponse) × (events
      ≡ older ++ new_event world older (provider_response response) ∷ [])
    × (response.tool_calls ≡ call ∷ [])
    × (call.name ≡ "submit_investigation")

-- A returned report is the score of a submitted proposal over the evidence, the trace and the
-- tokens of the session that is returned with it, which has one more event.
abbrev pub Scored : World → Option InvestigationReport → Session → Type 0
Scored world none s = Unit
Scored world (some report) s =
    (call : ProviderToolCall) × (before : Session) × (world.score call before ≡ ok report)
    × Submitted world call before.events
    × (s.events
        ≡ before.events
          ++ new_event world before.events
              (proposal_accepted call.id report.report_sha256 report.status)
            ∷ [])
    × (before.observed_evidence ≡ s.observed_evidence)
    × (before.trace ≡ s.trace)
    × (before.total_tokens ≡ s.total_tokens)

module _ (world : World) (config : InvestigationConfig) where
  -- A round that ended keeps the session sound, and its report is scored.
  abbrev Kept : Session × Option InvestigationReport → Type 0
  Kept out = Sound world config out.0 × Scored world out.1 out.0
