-- ===== src/Recovery/Lifecycle/Reopening.antt =====
-- When one report reopens an incident (src/paic/recovery/lifecycle.py).
use probabilistic_ai_inciden.Base.{
  ◌+◌, ◌≤◌, ◌≡◌, ◌≢◌, ◌↔◌, refl, ap, sym, ◌∙◌, subst, Bool, true, ◌||◌, ◌⊎◌, inl, inr, arith,
  Bool-cases, string_eq, ok,
}
use probabilistic_ai_inciden.Recovery.Models.{
  LifecycleStatus, monitoring, recovered, reopened, RecoveryDecision, recovering, failed,
  insufficient_data, RecoveryConfig, RecoveryReport, RecoveryLifecycleState, status_is_valid,
  Digests,
}
use probabilistic_ai_inciden.Recovery.Lifecycle.{
  Trigger, new_failures, is_severe_reopening, at_threshold, judge_regression, judge, says_recovered,
  transition_state,
}
use probabilistic_ai_inciden.Recovery.Lifecycle.Transition.{
  is_degraded, lifecycle_is_valid-parts, judgement, Transits, transition_state-Transits,
}

-- The failures counted with this one, in an incident that has recovered before, and the reasons
-- to reopen it.
abbrev pub MustReopen : RecoveryLifecycleState → RecoveryReport → RecoveryConfig → Type 0
MustReopen previous report config =
    (is_degraded report.decision ≡ true)
    × (previous.ever_recovered ≡ true)
    × ((report.severe_guardrail_breach ≡ true)
          × (config.immediate_reopen_on_severe_guardrail ≡ true)
        ⊎ (config.reopen_after_consecutive_failures ≤ previous.consecutive_failed_evaluations + 1))

degraded_ever :
    (d : RecoveryDecision) {ever : Bool}
    → is_degraded d ≡ true
    → (ever || says_recovered d) ≡ true
    → ever ≡ true
degraded_ever recovering h e = ground arith
degraded_ever failed h e = ground arith
degraded_ever RecoveryDecision.recovered h e = cc
degraded_ever insufficient_data h e = cc

module _ (previous : RecoveryLifecycleState) (report : RecoveryReport)
    (config : RecoveryConfig) where
  regression_reopens :
      ((judge_regression previous report config).status ≡ reopened)
      ↔ ((is_severe_reopening report config || at_threshold previous config) ≡ true)
  unfolding judge_regression
  regression_reopens =
      elim (Bool-cases (is_severe_reopening report config || at_threshold previous config)) [
        | inl t ↦ rw t ((λ h. refl), (λ h. refl))
        | inr f ↦ rw f ((λ h. cc), (λ h. cc))
      ]

  degraded_reopens :
      (s : LifecycleStatus)
      → s ≢ reopened
      → ((judge_regression previous report config).status ≡ reopened) ↔ (
          (s ≡ reopened)
          ⊎ ((true ≡ true)
              × ((is_severe_reopening report config || at_threshold previous config) ≡ true)))
  degraded_reopens s n = (
    (λ h. inr (refl, regression_reopens.0 h)),
    (λ why. elim why [ inl e ↦ absurd (n e) | inr (_, t) ↦ regression_reopens.1 t ]),
  )

  judge_reopens :
      (s : LifecycleStatus) (d : RecoveryDecision)
      → ((judge s d previous report config).status ≡ reopened) ↔ (
          (s ≡ reopened)
          ⊎ ((is_degraded d ≡ true)
              × ((is_severe_reopening report config || at_threshold previous config) ≡ true)))
  unfolding judge
  judge_reopens reopened RecoveryDecision.recovered = ((λ h. inl refl), (λ h. refl))
  judge_reopens reopened recovering = ((λ h. inl refl), (λ h. refl))
  judge_reopens reopened failed = ((λ h. inl refl), (λ h. refl))
  judge_reopens reopened insufficient_data = ((λ h. inl refl), (λ h. refl))
  judge_reopens recovered RecoveryDecision.recovered = ((λ h. cc), (λ h. ground arith))
  judge_reopens recovered insufficient_data = ((λ h. cc), (λ h. ground arith))
  judge_reopens monitoring RecoveryDecision.recovered = ((λ h. cc), (λ h. ground arith))
  judge_reopens monitoring insufficient_data = ((λ h. cc), (λ h. ground arith))
  judge_reopens recovered recovering = degraded_reopens recovered (λ e. cc)
  judge_reopens recovered failed = degraded_reopens recovered (λ e. cc)
  judge_reopens monitoring recovering = degraded_reopens monitoring (λ e. cc)
  judge_reopens monitoring failed = degraded_reopens monitoring (λ e. cc)

  regression_failures : (judge_regression previous report config).failures ≡ new_failures previous
  unfolding judge_regression
  regression_failures =
      elim (Bool-cases (is_severe_reopening report config || at_threshold previous config)) [
        | inl t ↦ rw t
        | inr f ↦ rw f
      ]

  pub judge_failures :
      (s : LifecycleStatus) (d : RecoveryDecision)
      → is_degraded d ≡ true
      → (s ≡ reopened) ⊎ ((judge s d previous report config).failures ≡ new_failures previous)
  unfolding judge
  judge_failures reopened d h = inl refl
  judge_failures recovered recovering h = inr regression_failures
  judge_failures recovered failed h = inr regression_failures
  judge_failures monitoring recovering h = inr regression_failures
  judge_failures monitoring failed h = inr regression_failures
  judge_failures recovered RecoveryDecision.recovered h = cc
  judge_failures recovered insufficient_data h = cc
  judge_failures monitoring RecoveryDecision.recovered h = cc
  judge_failures monitoring insufficient_data h = cc

module _ (digests : Digests) (previous : RecoveryLifecycleState) (report : RecoveryReport)
    (config : RecoveryConfig) (out : RecoveryLifecycleState × Trigger)
    (returned : transition_state digests previous report config ≡ ok out) where
  steps : Transits digests previous report config out.0 out.1
  steps = transition_state-Transits digests previous report config out returned

  status_is : out.0.status ≡ (judgement digests previous report config).status
  status_is = ap (λ (s : RecoveryLifecycleState). s.status) steps.is_next

  pub ever_is : out.0.ever_recovered ≡ (previous.ever_recovered || says_recovered report.decision)
  ever_is = ap (λ (s : RecoveryLifecycleState). s.ever_recovered) steps.is_next

  pub failures_is :
      out.0.consecutive_failed_evaluations ≡ (judgement digests previous report config).failures
  failures_is = ap (λ (s : RecoveryLifecycleState). s.consecutive_failed_evaluations) steps.is_next

  threshold_reason :
      previous.ever_recovered ≡ true
      → ((is_severe_reopening report config || at_threshold previous config) ≡ true) ↔ (
          (report.severe_guardrail_breach ≡ true)
            × (config.immediate_reopen_on_severe_guardrail ≡ true)
          ⊎ (config.reopen_after_consecutive_failures
              ≤ previous.consecutive_failed_evaluations + 1))
  threshold_reason ever = rw ever (ground arith)

  reopened_had_recovered :
      out.0.status ≡ reopened → is_degraded report.decision ≡ true → previous.ever_recovered ≡ true
  reopened_had_recovered h d =
      let standing = (lifecycle_is_valid-parts out.0 steps.is_valid).standing in
      let ever : out.0.ever_recovered ≡ true =
        subst (λ s. status_is_valid s out.0.ever_recovered ≡ true) h standing in
      degraded_ever report.decision d (sym ever_is ∙ ever)

  -- A report that `transition_state` applies leaves the lifecycle reopened exactly when it was, or
  -- when the report says the incident is not over, the incident has recovered before, and either
  -- the report has a severe breach under immediate reopening or the failures counted with this one
  -- reach the configured number.
  pub transition_state-reopens_iff :
      (out.0.status ≡ reopened) ↔ ((previous.status ≡ reopened) ⊎ MustReopen previous report config)
  transition_state-reopens_iff = (
    (λ h.
        elim ((judge_reopens previous report config previous.status report.decision).0
          (sym status_is ∙ h)) [
            | inl e ↦ inl e
            | inr (d, why) ↦
                let ever = reopened_had_recovered h d in
                inr (d, ever, (threshold_reason ever).0 why)
          ]),
    (λ why.
        status_is
        ∙ (judge_reopens previous report config previous.status report.decision).1 (elim why [
          | inl e ↦ inl e
          | inr (d, ever, reason) ↦ inr (d, (threshold_reason ever).1 reason)
        ])),
  )
