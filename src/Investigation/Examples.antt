-- ===== src/Investigation/Examples.antt =====
-- Examples of the theorems about src/paic/investigation, at sample values.
mod Run
mod Score
use mathlib.Core.Logic.{◌↔◌}
use probabilistic_ai_inciden.Base.{
  ℕ, zero, suc, ◌+◌, ◌<◌, ◌≡◌, refl, true, none, some, [], ◌∷◌, arith, length, ok, err,
}
use probabilistic_ai_inciden.Base.Membership.{In, Distinct}
use probabilistic_ai_inciden.Investigation.Models.{ProviderResponse}
use probabilistic_ai_inciden.Investigation.Router.{
  ProviderError, RouterConfig, ModelRouter, Answers, ordered, try_routes, complete,
}
use probabilistic_ai_inciden.Investigation.Router.Order.{ordered-Distinct}
use probabilistic_ai_inciden.Investigation.Router.Fallback.{complete-answered, complete-falls_back}

abbrev two_routes : RouterConfig
two_routes = record { models = "large" ∷ "small" ∷ []; max_provider_failures = 4 }

abbrev rate_limited : ProviderError
rate_limited = record { code = "rate_limited"; retryable = true }

abbrev reply : ProviderResponse
reply = record {
  model = "large";
  content = none;
  tool_calls = [];
  finish_reason = some "stop";
  usage = record { prompt_tokens = 10; completion_tokens = 5; total_tokens = 15 };
}

-- The first route answers and the second is rate-limited.
abbrev first_answers : Answers
first_answers zero = ok reply
first_answers (suc n) = err rate_limited

-- A router that has moved on to the second route.
abbrev on_second : ModelRouter
on_second = record { attempts = []; failures = 1; preferred_route_index = 1 }

ordered-Distinct_example : Distinct (ordered 1 3) × ((i : ℕ) → (In i (ordered 1 3)) ↔ (i < 3))
ordered-Distinct_example = ordered-Distinct 1 3 (omega arith)

on_second-answered : (complete two_routes first_answers on_second).1 ≡ ok reply
unfolding complete ordered try_routes
on_second-answered = refl

complete-answered_example :
    let after = (complete two_routes first_answers on_second).0 in
    (first_answers after.preferred_route_index ≡ ok reply)
    × (after.preferred_route_index < 2)
    × (length after.attempts + 1 ≡ 0 + after.failures + 1)
complete-answered_example =
    complete-answered two_routes first_answers on_second reply (omega arith) on_second-answered

only_rate_limited :
    (j : ℕ) (error : ProviderError) → first_answers j ≡ err error → error.retryable ≡ true
only_rate_limited zero error h = cc
only_rate_limited (suc n) error h = cc

complete-falls_back_example :
    (r : ProviderResponse) × ((complete two_routes first_answers on_second).1 ≡ ok r)
complete-falls_back_example =
    complete-falls_back two_routes first_answers on_second 0 reply (omega arith) (omega arith) refl
      only_rate_limited (omega arith)
