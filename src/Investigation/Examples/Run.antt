-- ===== src/Investigation/Examples/Run.antt =====
-- A whole run of src/paic/investigation/orchestrator.py: a tool call, then a proposal.
use Prim.Native.String.{◌++◌ as text_append}
use probabilistic_ai_inciden.Base.{ℕ, zero, suc, String, false, none, some, [], ◌∷◌, ok}
use probabilistic_ai_inciden.Investigation.Report.{InvestigationReport, concluded}
use probabilistic_ai_inciden.Investigation.Models.{ProviderToolCall, ProviderResponse, ModelAttempt}
use probabilistic_ai_inciden.Investigation.Models
use probabilistic_ai_inciden.Investigation.Router.{Answers}
use probabilistic_ai_inciden.Investigation.Orchestrator.{
  ExecutionStatus, ToolResponse, ToolTraceEntry, Payload, provider_response, proposal_accepted,
  tool_result, EventBody, TranscriptEvent, Session, World, InvestigationConfig, first_hash,
}

abbrev call_of : String → String → ProviderToolCall
call_of id name = record { id = id; name = name; arguments = "{}" }

abbrev response_with : ProviderToolCall → ProviderResponse
response_with call = record {
  model = "large";
  content = none;
  tool_calls = call ∷ [];
  finish_reason = none;
  usage = record { prompt_tokens = 10; completion_tokens = 5; total_tokens = 15 };
}

abbrev search_response : ProviderResponse
search_response = response_with (call_of "call-1" "evidence.search")

abbrev submit_response : ProviderResponse
submit_response = response_with (call_of "call-2" "submit_investigation")

abbrev answers_of : ℕ → Answers
answers_of (suc zero) route = ok search_response
answers_of _ route = ok submit_response

abbrev found : ToolResponse
found = record {
  call_id = "uuid-1";
  execution_status = ExecutionStatus.success;
  source_manifest_hashes = ("dataset", "h1") ∷ [];
  truncated = false;
  evidence_record_ids = "ev-1" ∷ [];
  normalized_arguments = "{}";
  result_sha256 = "r1";
  error_code = none;
}

abbrev final_report : InvestigationReport
final_report = record {
  incident_id = "inc-1";
  status = concluded;
  selected_hypothesis_id = some "h-1";
  confidence = 9;
  normalized_entropy = 3;
  posterior_margin = 6;
  hypotheses = [];
  observed_evidence_record_ids = "ev-1" ∷ [];
  source_manifest_hashes = ("dataset", "h1") ∷ [];
  report_sha256 = "report-1";
}

abbrev digest_of : EventBody → String
digest_of b = text_append "event:" b.previous_event_sha256

abbrev sample_world : World
sample_world = record {
  answers = answers_of;
  invoke = λ i tool call. found;
  score = λ call session. ok final_report;
  event_digest = digest_of;
  replace = λ text old new. text;
}

abbrev sample_config : InvestigationConfig
sample_config = record {
  routes = "large" ∷ [];
  budget = record {
    max_rounds = 3;
    max_tool_calls = 1;
    max_provider_failures = 2;
    max_total_tokens = 100;
    max_tool_result_bytes = 1000;
  };
  allowed_tools = "evidence.search" ∷ [];
  source_hashes = ("dataset", "h1") ∷ [];
}

abbrev entry : ToolTraceEntry
entry = record {
  sequence = 1;
  call_id = "uuid-1";
  tool = "evidence.search";
  arguments = "{}";
  execution_status = ExecutionStatus.success;
  result_sha256 = "r1";
  evidence_record_ids = "ev-1" ∷ [];
  truncated = false;
  error_code = none;
}

abbrev event_at : ℕ → String → Payload → TranscriptEvent
event_at n previous payload = record {
  body = record { sequence = n; payload = payload; previous_event_sha256 = previous };
  event_sha256 = text_append "event:" previous;
}

abbrev hash_at : ℕ → String
hash_at zero = first_hash
hash_at (suc n) = text_append "event:" (hash_at n)

abbrev attempt : ModelAttempt
attempt = record {
  model = "large";
  status = Models.success;
  error_code = none;
  prompt_tokens = 10;
  completion_tokens = 5;
}

abbrev final_session : Session
final_session = record {
  router = record { attempts = attempt ∷ attempt ∷ []; failures = 0; preferred_route_index = 0 };
  events =
      event_at 1 (hash_at 0) (provider_response search_response)
      ∷ event_at 2 (hash_at 1) (tool_result "call-1" entry found)
      ∷ event_at 3 (hash_at 2) (provider_response submit_response)
      ∷ event_at 4 (hash_at 3) (proposal_accepted "call-2" "report-1" concluded)
      ∷ [];
  trace = entry ∷ [];
  observed_evidence = "ev-1" ∷ [];
  tool_calls = 1;
  total_tokens = 30;
}
