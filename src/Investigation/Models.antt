-- ===== src/Investigation/Models.antt =====
-- The models of src/paic/investigation/models.py and config.py that the router reads. The JSON
-- arguments of a tool call are their canonical text.
use probabilistic_ai_inciden.Base.{
  ℕ, ◌+◌, String, not, ◌&&◌, ◌||◌, Option, List, nat_beq, if◌then◌else◌,
}

pub record ProviderToolCall : Type 0 where
  pub id : String
  pub name : String
  pub arguments : String

pub record ProviderUsage : Type 0 where
  pub prompt_tokens : ℕ
  pub completion_tokens : ℕ
  pub total_tokens : ℕ

-- `reconcile_token_totals`: the usage with its total, or none where the validator raises.
unfoldable pub reconcile_token_totals : ProviderUsage → Option ProviderUsage
reconcile_token_totals usage =
    if not (nat_beq component_total 0)
      && not (nat_beq usage.total_tokens 0 || nat_beq usage.total_tokens component_total)
    then Option.none
    else if not (nat_beq component_total 0) && nat_beq usage.total_tokens 0
    then Option.some (record usage { total_tokens = component_total })
    else Option.some usage
  where
    component_total : ℕ
    component_total = usage.prompt_tokens + usage.completion_tokens

pub record ProviderResponse : Type 0 where
  pub model : String
  pub content : Option String
  pub tool_calls : List ProviderToolCall
  pub finish_reason : Option String
  pub usage : ProviderUsage

pub data AttemptStatus : Type 0 where
  success retryable_error fatal_error : AttemptStatus

pub record ModelAttempt : Type 0 where
  pub model : String
  pub status : AttemptStatus
  pub error_code : Option String
  pub prompt_tokens : ℕ
  pub completion_tokens : ℕ

pub record InvestigationBudget : Type 0 where
  pub max_rounds : ℕ
  pub max_tool_calls : ℕ
  pub max_provider_failures : ℕ
  pub max_total_tokens : ℕ
  pub max_tool_result_bytes : ℕ
