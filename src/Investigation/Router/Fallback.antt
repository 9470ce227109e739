-- ===== src/Investigation/Router/Fallback.antt =====
-- What `ModelRouter.complete` of src/paic/investigation/router.py tries and returns.
use probabilistic_ai_inciden.Base.{
  ℕ, ◌+◌, ◌-◌, ◌≤◌, ◌<◌, ◌≡◌, refl, ap, sym, ◌∙◌, subst, true, false, Option, none, some, List, [],
  ◌∷◌, ◌⊎◌, inl, inr, arith, length, length-append, ltb, Bool-cases, Result, ok, err, ok-injective,
}
use probabilistic_ai_inciden.Base.Membership.{In}
use probabilistic_ai_inciden.Investigation.Models.{ProviderResponse}
use probabilistic_ai_inciden.Investigation.Router.{
  ProviderError, RouterConfig, ModelRouter, Answers, count_up, ordered, Outcome, record_failure,
  record_success, try_routes, complete,
}
use probabilistic_ai_inciden.Investigation.Router.Order.{length-count_up, ordered-Distinct}

-- What a call that returned a response did to the router.
pub record Answered (config : RouterConfig) (answers : Answers) (routes : List ℕ)
    (before after : ModelRouter) (response : ProviderResponse) : Type 0 where
  pub tried : In after.preferred_route_index routes
  pub answer : answers after.preferred_route_index ≡ ok response
  pub counted :
      length after.attempts + before.failures ≡ length before.attempts + after.failures + 1

module _ (config : RouterConfig) (answers : Answers) where
  -- One round of the loop: a response, an error that ends the call, or an error that does not.
  data Round (i : ℕ) (rest : List ℕ) (last_error : Option ProviderError) (before : ModelRouter)
      : Type 0 where
    responds :
        (response : ProviderResponse)
        → answers i ≡ ok response
        → try_routes config answers (i ∷ rest) last_error before
          ≡ (record_success config i response before, ok response)
        → Round i rest last_error before
    ends :
        (error : ProviderError)
        → answers i ≡ err error
        → (error.retryable ≡ false) ⊎ (config.max_provider_failures < before.failures + 1)
        → try_routes config answers (i ∷ rest) last_error before
          ≡ (record_failure config i error before, err error)
        → Round i rest last_error before
    goes_on :
        (error : ProviderError)
        → answers i ≡ err error
        → before.failures + 1 ≤ config.max_provider_failures
        → try_routes config answers (i ∷ rest) last_error before
          ≡ try_routes config answers rest (some error) (record_failure config i error before)
        → Round i rest last_error before

  Result-cases :
      (o : Result ProviderError ProviderResponse)
      → ((r : ProviderResponse) × (o ≡ ok r)) ⊎ ((e : ProviderError) × (o ≡ err e))
  Result-cases (ok r) = inl (r, refl)
  Result-cases (err e) = inr (e, refl)

  round :
      (i : ℕ) (rest : List ℕ) (last_error : Option ProviderError) (before : ModelRouter)
      → Round i rest last_error before
  unfolding try_routes
  round i rest last_error before = elim (Result-cases (answers i)) [
    | inl (r, e) ↦ responds r e (rw (e, try_routes))
    | inr (x, e) ↦ elim (Bool-cases (ltb config.max_provider_failures (before.failures + 1))) [
      | inl t ↦ ends x e (inr (ground arith)) (rw (e, t, try_routes))
      | inr f ↦ elim (Bool-cases x.retryable) [
        | inl again ↦ goes_on x e (ground arith) (rw (e, f, again, try_routes))
        | inr fatal ↦ ends x e (inl fatal) (rw (e, f, fatal, try_routes))
      ]
    ]
  ]

  try_routes-Answered :
      (routes : List ℕ) (last_error : Option ProviderError) (before : ModelRouter)
      (response : ProviderResponse)
      → (try_routes config answers routes last_error before).1 ≡ ok response
      → Answered config answers routes before
          (try_routes config answers routes last_error before).0
          response
  try_routes-Answered [] last_error before response h = unfold try_routes in absurd (cc h)
  try_routes-Answered (i ∷ rest) last_error before response h =
      elim (round i rest last_error before) [
        | responds r e out ↦
            let same : r ≡ response = ok-injective (ap (λ (o : Outcome). o.1) (sym out) ∙ h) in
            subst (λ (o : Outcome). Answered config answers (i ∷ rest) before o.0 response)
              (sym out)
              (record {
                tried = inl refl;
                answer = e ∙ ap ok same;
                counted = omega (arith, length-append before.attempts _);
              })
        | ends x e why out ↦ absurd (cc (ap (λ (o : Outcome). o.1) out, h))
        | goes_on x e few out ↦
            let next = record_failure config i x before in
            let ih =
              try_routes-Answered rest (some x) next response
                (ap (λ (o : Outcome). o.1) (sym out) ∙ h) in
            subst (λ (o : Outcome). Answered config answers (i ∷ rest) before o.0 response)
              (sym out)
              (record {
                tried = inr ih.tried;
                answer = ih.answer;
                counted = omega (arith, ih.counted, length-append before.attempts _);
              })
      ]

  -- The failure budget that a response leaves is kept.
  try_routes_within :
      (routes : List ℕ) (last_error : Option ProviderError) (before : ModelRouter)
      (response : ProviderResponse)
      → before.failures ≤ config.max_provider_failures
      → (try_routes config answers routes last_error before).1 ≡ ok response
      → (try_routes config answers routes last_error before).0.failures
        ≤ config.max_provider_failures
  try_routes_within [] last_error before response few h = unfold try_routes in absurd (cc h)
  try_routes_within (i ∷ rest) last_error before response few h =
      let kept = λ (o : Outcome). o.0.failures ≤ config.max_provider_failures in
      elim (round i rest last_error before) [
        | responds r e out ↦ subst kept (sym out) few
        | ends x e why out ↦ absurd (cc (ap (λ (o : Outcome). o.1) out, h))
        | goes_on x e enough out ↦ subst kept (sym out) (
            try_routes_within rest (some x) (record_failure config i x before) response enough
              (ap (λ (o : Outcome). o.1) (sym out) ∙ h))
      ]

  pub complete_within :
      (router : ModelRouter) (response : ProviderResponse)
      → router.failures ≤ config.max_provider_failures
      → (complete config answers router).1 ≡ ok response
      → (complete config answers router).0.failures ≤ config.max_provider_failures
  unfolding complete
  complete_within router response =
      try_routes_within (ordered router.preferred_route_index (length config.models)) none router
        response

  -- While the failures of all routes fit in the budget and each error can be retried, a route that
  -- responds is reached.
  try_routes-reaches :
      (routes : List ℕ) (last_error : Option ProviderError) (before : ModelRouter) (i : ℕ)
      (response : ProviderResponse)
      → In i routes
      → answers i ≡ ok response
      → ((j : ℕ) (error : ProviderError) → answers j ≡ err error → error.retryable ≡ true)
      → before.failures + length routes ≤ config.max_provider_failures
      → (r : ProviderResponse) × ((try_routes config answers routes last_error before).1 ≡ ok r)
  try_routes-reaches [] last_error before i response m responds' retry few = absurd m
  try_routes-reaches (k ∷ rest) last_error before i response m responds' retry few =
      elim (round k rest last_error before) [
        | responds r e out ↦ (r, ap (λ (o : Outcome). o.1) out)
        | ends x e (inl fatal) out ↦ absurd (cc (retry k x e, fatal))
        | ends x e (inr many) out ↦ absurd (omega (arith, many, few))
        | goes_on x e enough out ↦
            let (r, found) =
              try_routes-reaches rest (some x) (record_failure config k x before) i response
                (later m x e) responds' retry (omega (arith, few)) in
            (r, ap (λ (o : Outcome). o.1) out ∙ found)
      ]
    where
      later : In i (k ∷ rest) → (x : ProviderError) → answers k ≡ err x → In i rest
      later (inl same) x e = absurd (cc (ap answers same, e, responds'))
      later (inr there) x e = there

module _ (config : RouterConfig) (answers : Answers) (router : ModelRouter) where
  -- A call of `complete` that returns a response, on a router whose preferred index is that of a
  -- route or their end, leaves as the preferred route one that gave this response, among the
  -- configured routes, and adds an attempt for each new failure and one for the response.
  pub complete-answered :
      (response : ProviderResponse)
      → router.preferred_route_index ≤ length config.models
      → (complete config answers router).1 ≡ ok response
      → (let after = (complete config answers router).0 in
          (answers after.preferred_route_index ≡ ok response)
          × (after.preferred_route_index < length config.models)
          × (length after.attempts + router.failures ≡ length router.attempts + after.failures + 1))
  unfolding complete
  complete-answered response preferred h =
      let a =
        try_routes-Answered config answers
          (ordered router.preferred_route_index (length config.models)) none router response h in
      (
        a.answer,
        ((ordered-Distinct router.preferred_route_index (length config.models) preferred).1 _).0
            a.tried,
        a.counted,
      )

  -- If some configured route responds, each error can be retried, and the failure budget leaves
  -- room for every route, then `complete` returns a response.
  pub complete-falls_back :
      (i : ℕ) (response : ProviderResponse)
      → router.preferred_route_index ≤ length config.models
      → i < length config.models
      → answers i ≡ ok response
      → ((j : ℕ) (error : ProviderError) → answers j ≡ err error → error.retryable ≡ true)
      → router.failures + length config.models ≤ config.max_provider_failures
      → (r : ProviderResponse) × ((complete config answers router).1 ≡ ok r)
  unfolding complete ordered
  complete-falls_back i response preferred small responds' retry few =
      try_routes-reaches config answers
        (ordered router.preferred_route_index (length config.models)) none router i response
        (((ordered-Distinct router.preferred_route_index (length config.models) preferred).1 i).1
          small)
        responds' retry
        (omega (
          arith,
          few,
          preferred,
          length-append
              (count_up router.preferred_route_index
                (length config.models - router.preferred_route_index))
              (count_up 0 router.preferred_route_index),
          length-count_up router.preferred_route_index
              (length config.models - router.preferred_route_index),
          length-count_up 0 router.preferred_route_index,
        ))
