-- ===== src/Investigation/Router.antt =====
-- src/paic/investigation/router.py: ordered model routing with fallback. The providers are outside:
-- their answers to one call of `complete`, by the route's index, are an argument.
pub mod Order
pub mod Fallback
use probabilistic_ai_inciden.Base.{
  ℕ, zero, suc, ◌+◌, ◌-◌, String, Bool, Option, none, some, List, [], ◌∷◌, ◌++◌, ltb, if◌then◌else◌,
  Result, ok, err, length,
}
use probabilistic_ai_inciden.Investigation.Models.{
  ProviderResponse, ModelAttempt, success, retryable_error, fatal_error,
}

-- A `ProviderError`: its code, and whether its kind is `transient` or `route`.
pub record ProviderError : Type 0 where
  pub code : String
  pub retryable : Bool

-- The models of the configured routes, in order, and the failure budget.
pub record RouterConfig : Type 0 where
  pub models : List String
  pub max_provider_failures : ℕ

pub record ModelRouter : Type 0 where
  pub attempts : List ModelAttempt
  pub failures : ℕ
  pub preferred_route_index : ℕ

-- What the provider of a route answers.
abbrev pub Answers : Type 0
Answers = ℕ → Result ProviderError ProviderResponse

-- `range(start, start + count)`
abbrev pub count_up : ℕ → ℕ → List ℕ
count_up start zero = []
count_up start (suc n) = start ∷ count_up (suc start) n

-- `ordered`: the preferred route and those after it, then those before it.
unfoldable pub ordered : ℕ → ℕ → List ℕ
ordered preferred routes = count_up preferred (routes - preferred) ++ count_up 0 preferred

-- `routes[i].model`
unfoldable pub model_at : List String → ℕ → String
model_at [] i = ""
model_at (m ∷ rest) zero = m
model_at (m ∷ rest) (suc i) = model_at rest i

unfoldable pub failed_attempt : String → ProviderError → ModelAttempt
failed_attempt model error = record {
  model = model;
  status = if error.retryable then retryable_error else fatal_error;
  error_code = some error.code;
  prompt_tokens = 0;
  completion_tokens = 0;
}

unfoldable pub successful_attempt : String → ProviderResponse → ModelAttempt
successful_attempt model response = record {
  model = model;
  status = success;
  error_code = none;
  prompt_tokens = response.usage.prompt_tokens;
  completion_tokens = response.usage.completion_tokens;
}

abbrev pub Outcome : Type 0
Outcome = ModelRouter × Result ProviderError ProviderResponse

-- The router after a failure.
abbrev pub record_failure : RouterConfig → ℕ → ProviderError → ModelRouter → ModelRouter
record_failure config i error router = record router {
  attempts = router.attempts ++ failed_attempt (model_at config.models i) error ∷ [];
  failures = router.failures + 1;
}

-- The router after a success.
abbrev pub record_success : RouterConfig → ℕ → ProviderResponse → ModelRouter → ModelRouter
record_success config i response router = record router {
  attempts = router.attempts ++ successful_attempt (model_at config.models i) response ∷ [];
  preferred_route_index = i;
}

-- The end of the loop: `last_error`, or the error for no route.
abbrev pub give_up : Option ProviderError → ProviderError
give_up none = record { code = "no_models"; retryable = Bool.false }
give_up (some last_error) = last_error

-- The loop of `complete` over the routes that are left.
unfoldable pub try_routes :
    RouterConfig → Answers → List ℕ → Option ProviderError → ModelRouter → Outcome
try_routes config answers [] last_error router = (router, err (give_up last_error))
try_routes config answers (i ∷ rest) last_error router = elim (answers i) [
  | ok response ↦ (record_success config i response router, ok response)
  | err error ↦
      let failed = record_failure config i error router in
      let next = try_routes config answers rest (some error) failed in
      if ltb config.max_provider_failures failed.failures
      then (failed, err error)
      else if error.retryable
      then next
      else (failed, err error)
]

-- `ModelRouter.complete`
unfoldable pub complete : RouterConfig → Answers → ModelRouter → Outcome
complete config answers router =
    try_routes config answers (ordered router.preferred_route_index (length config.models)) none
      router
