-- ===== src/Investigation/Orchestrator.antt =====
-- src/paic/investigation/orchestrator.py: the bounded loop of an investigation. What the models
-- answer, what the tool gateway returns, how a proposal is scored, the digest of an event and
-- Python's `str.replace` are the fields of an argument. The messages to the models are not
-- modelled: the answers are whatever the models say. The dictionary of source hashes is the list
-- of its items in the order of their keys.
pub mod Invariant
use probabilistic_ai_inciden.Base.{
  ℕ, zero, suc, ◌+◌, String, Bool, true, false, not, ◌&&◌, Option, none, some, List, [], ◌∷◌, ◌++◌,
  ltb, length, ◌==◌, ◌!=◌, Eq, string_eq, if◌then◌else◌, Result, ok, err, ◌>>=◌, ◌>>◌, reject_if,
  map_err,
}
use probabilistic_ai_inciden.Base.Discrete.{String-discrete, discrete_eq}
use probabilistic_ai_inciden.Base.Membership.{has}
use probabilistic_ai_inciden.Investigation.Report.{InvestigationReport, ReportStatus}
use probabilistic_ai_inciden.Investigation.Models.{
  ProviderToolCall, ProviderResponse, InvestigationBudget,
}
use probabilistic_ai_inciden.Investigation.Router.{
  ProviderError, RouterConfig, ModelRouter, Answers, complete,
}

pub data ExecutionStatus : Type 0 where
  success error : ExecutionStatus

abbrev pub Hashes : Type 0
Hashes = List (String × String)

-- The fields of a gateway's response that the loop reads.
pub record ToolResponse : Type 0 where
  pub call_id : String
  pub execution_status : ExecutionStatus
  pub source_manifest_hashes : Hashes
  pub truncated : Bool
  pub evidence_record_ids : List String
  pub normalized_arguments : String
  pub result_sha256 : String
  pub error_code : Option String

pub record ToolTraceEntry : Type 0 where
  pub sequence : ℕ
  pub call_id : String
  pub tool : String
  pub arguments : String
  pub execution_status : ExecutionStatus
  pub result_sha256 : String
  pub evidence_record_ids : List String
  pub truncated : Bool
  pub error_code : Option String

-- The type of an event with its payload.
pub data Payload : Type 0 where
  provider_response : ProviderResponse → Payload
  proposal_rejected : String → String → Payload
  proposal_accepted : String → String → ReportStatus → Payload
  tool_result : String → ToolTraceEntry → ToolResponse → Payload

-- An event without its hash.
pub record EventBody : Type 0 where
  pub sequence : ℕ
  pub payload : Payload
  pub previous_event_sha256 : String

pub record TranscriptEvent : Type 0 where
  pub body : EventBody
  pub open body use *
  pub event_sha256 : String

-- The local variables of `run`.
pub record Session : Type 0 where
  pub router : ModelRouter
  pub events : List TranscriptEvent
  pub trace : List ToolTraceEntry
  pub observed_evidence : List String
  pub tool_calls : ℕ
  pub total_tokens : ℕ

-- What is outside the loop. A round is known by its index.
pub record World : Type 0 where
  pub answers : ℕ → Answers
  pub invoke : ℕ → String → ProviderToolCall → ToolResponse
  -- the proposal's model and `score_proposal`
  pub score : ProviderToolCall → Session → Result String InvestigationReport
  pub event_digest : EventBody → String
  pub replace : String → String → String → String

pub record InvestigationConfig : Type 0 where
  pub routes : List String
  pub budget : InvestigationBudget
  pub allowed_tools : List String
  pub source_hashes : Hashes

pub data InvestigationError : Type 0 where
  routes_failed : ProviderError → InvestigationError
  token_budget tool_budget lineage_changed rounds_exhausted : InvestigationError

unfoldable pub Hashes-discrete : Discrete Hashes
Hashes-discrete = hlevel String-discrete

instance abbrev pub hashes_eq : Eq Hashes
hashes_eq = discrete_eq Hashes-discrete

-- `events[-1].event_sha256 if events else "0" * 64`
unfoldable pub last_event : String → List TranscriptEvent → String
last_event previous [] = previous
last_event previous (e ∷ rest) = last_event e.event_sha256 rest

abbrev pub first_hash : String
first_hash = "0000000000000000000000000000000000000000000000000000000000000000"

-- The event that `_event` makes.
unfoldable pub new_event : World → List TranscriptEvent → Payload → TranscriptEvent
new_event world events payload = record { body = body; event_sha256 = world.event_digest body }
  where
    body : EventBody
    body = record {
      sequence = length events + 1;
      payload = payload;
      previous_event_sha256 = last_event first_hash events;
    }

-- `_event`
abbrev pub add_event : World → Payload → Session → Session
add_event world payload session = record session {
  events = session.events ++ new_event world session.events payload ∷ [];
}

abbrev pub is_success : ExecutionStatus → Bool
is_success success = true
is_success error = false

-- `SUBMIT_TOOL` of prompts.py
abbrev pub submit_tool : String
submit_tool = "submit_investigation"

-- `gateway_name` of prompts.py
abbrev pub gateway_name : World → String → String
gateway_name world tool = world.replace tool "__" "."

unfoldable pub trace_entry : Session → String → ToolResponse → ToolTraceEntry
trace_entry session tool response = record {
  sequence = length session.trace + 1;
  call_id = response.call_id;
  tool = tool;
  arguments = response.normalized_arguments;
  execution_status = response.execution_status;
  result_sha256 = response.result_sha256;
  evidence_record_ids = response.evidence_record_ids;
  truncated = response.truncated;
  error_code = response.error_code;
}

-- `observed_evidence.update(...)` after a successful invocation
abbrev pub observe : ToolResponse → List String → List String
observe response observed =
    if is_success response.execution_status
    then observed ++ response.evidence_record_ids
    else observed

-- The session after a tool's response.
abbrev pub record_response : World → ProviderToolCall → String → ToolResponse → Session → Session
record_response world call tool response session =
    let entry = trace_entry session tool response in
    add_event world (tool_result call.id entry response) (record session {
      observed_evidence = observe response session.observed_evidence;
      trace = session.trace ++ entry ∷ [];
    })

-- What a round ends in: the session, and the report that it returns, if it does.
abbrev pub RoundResult : Type 0
RoundResult = Result InvestigationError (Session × Option InvestigationReport)

-- The branch of the submitted proposal.
unfoldable pub submit : World → ProviderToolCall → Session → RoundResult
submit world call session = elim (world.score call session) [
  | err message ↦ ok (add_event world (proposal_rejected call.id message) session, none)
  | ok report ↦ ok (
    add_event world (proposal_accepted call.id report.report_sha256 report.status) session,
    some report,
  )
]

-- The branch of a tool call.
unfoldable pub call_tool :
    World → InvestigationConfig → ℕ → ProviderToolCall → Session → RoundResult
call_tool world config round_index call session =
    if not (has config.allowed_tools (gateway_name world call.name))
    then ok (session, none)
    else (do
      let tool = gateway_name world call.name
      let counted = record session { tool_calls = session.tool_calls + 1 }
      reject_if (ltb config.budget.max_tool_calls counted.tool_calls) tool_budget
      let response = world.invoke round_index tool call
      reject_if
          (is_success response.execution_status
            && response.source_manifest_hashes != config.source_hashes)
          lineage_changed
      ok (record_response world call tool response counted, none))

-- The branches on the tool calls of a response.
unfoldable pub answer_calls :
    World → InvestigationConfig → ℕ → List ProviderToolCall → Session → RoundResult
answer_calls world config round_index (call ∷ []) session =
    if call.name == submit_tool
    then submit world call session
    else call_tool world config round_index call session
answer_calls world config round_index _ session = ok (session, none)

abbrev pub router_config : InvestigationConfig → RouterConfig
router_config config = record {
  models = config.routes;
  max_provider_failures = config.budget.max_provider_failures;
}

-- One round of the loop of `run`.
unfoldable pub one_round : World → InvestigationConfig → ℕ → Session → RoundResult
one_round world config round_index session = do
  let called = complete (router_config config) (world.answers round_index) session.router
  response ← map_err routes_failed called.1
  let tokens = session.total_tokens + response.usage.total_tokens
  reject_if (ltb config.budget.max_total_tokens tokens) token_budget
  answer_calls world config round_index response.tool_calls (
      add_event world (provider_response response)
        (record session { router = called.0; total_tokens = tokens }))

-- The rounds that are left, the next of which has the index.
unfoldable pub rounds :
    World
    → InvestigationConfig
    → ℕ
    → ℕ
    → Session
    → Result InvestigationError (InvestigationReport × Session)
rounds world config zero round_index session = err rounds_exhausted
rounds world config (suc left) round_index session = do
  out ← one_round world config round_index session
  elim out.1 [
    | some report ↦ ok (report, out.0)
    | none ↦ rounds world config left (suc round_index) out.0
  ]

abbrev pub new_session : Session
new_session = record {
  router = record { attempts = []; failures = 0; preferred_route_index = 0 };
  events = [];
  trace = [];
  observed_evidence = [];
  tool_calls = 0;
  total_tokens = 0;
}

-- `Investigator.run`
unfoldable pub run :
    World → InvestigationConfig → Result InvestigationError (InvestigationReport × Session)
run world config = rounds world config config.budget.max_rounds 1 new_session
