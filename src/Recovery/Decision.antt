-- ===== src/Recovery/Decision.antt =====
-- The decision of `evaluate_recovery` in src/paic/recovery/engine.py over the evaluations of its
-- metrics, and the report that it makes. The evaluation of one metric is floating-point statistics
-- and is not modelled: the evaluations are an argument.
use probabilistic_ai_inciden.Base.{
  ◌≡◌, ◌↔◌, refl, sym, ◌∙◌, String, Bool, true, false, ◌&&◌, ◌||◌, List, [], ◌∷◌, ◌⊎◌, inl, inr,
  length, any, all, keep, All, ◌==◌, beq→eq, Bool-cases, &&_true, ||_false, if◌then◌else◌,
}
use probabilistic_ai_inciden.Remediation.Models.Plan.{Instant}
use probabilistic_ai_inciden.Recovery.Models.{
  MetricRole, primary, guardrail, RecoveryDecision, recovered, recovering, failed,
  insufficient_data, RecoveryConfig, RecoveryMetricEvaluation, ReportBody, RecoveryReport,
  MetricRole-discrete, RecoveryDecision-discrete, metric_role_eq, recovery_decision_eq, with_role,
  is_recovered, is_severe, bool_beq, Digests,
}

abbrev has_status : RecoveryDecision → RecoveryMetricEvaluation → Bool
has_status status e = e.status == status

-- `severe`
abbrev pub is_severe_breach : List RecoveryMetricEvaluation → Bool
is_severe_breach evaluations = any is_severe (with_role guardrail evaluations)

-- The branches that choose `decision`.
unfoldable pub recovery_decision : List RecoveryMetricEvaluation → RecoveryDecision
recovery_decision evaluations =
    if is_severe_breach evaluations || any (has_status failed) evaluations
    then failed
    else if any (has_status insufficient_data) evaluations
    then insufficient_data
    else if all is_recovered (with_role primary evaluations)
        && all is_recovered (with_role guardrail evaluations)
    then recovered
    else recovering

-- What the report takes from the observations and the execution.
pub record ObservationBinding : Type 0 where
  pub observation_set_id : String
  pub execution_receipt_sha256 : String
  pub execution_manifest_sha256 : String
  pub observation_set_sha256 : String
  pub observation_manifest_sha256 : String
  pub evaluated_at : Instant

-- The report of `evaluate_recovery`.
unfoldable pub new_report :
    Digests → RecoveryConfig → ObservationBinding → List RecoveryMetricEvaluation → RecoveryReport
new_report digests config binding evaluations = record {
  body = body;
  report_sha256 = digests.report_digest body;
}
  where
    body : ReportBody
    body = record {
      recovery_id = config.recovery_id;
      incident_id = config.incident_id;
      observation_set_id = binding.observation_set_id;
      execution_receipt_sha256 = binding.execution_receipt_sha256;
      execution_manifest_sha256 = binding.execution_manifest_sha256;
      config_sha256 = digests.config_digest config;
      observation_set_sha256 = binding.observation_set_sha256;
      observation_manifest_sha256 = binding.observation_manifest_sha256;
      evaluated_at = binding.evaluated_at;
      decision = recovery_decision evaluations;
      primary_recovered = length (keep is_recovered (with_role primary evaluations));
      primary_total = length (with_role primary evaluations);
      guardrails_healthy = length (keep is_recovered (with_role guardrail evaluations));
      guardrail_total = length (with_role guardrail evaluations);
      severe_guardrail_breach = is_severe_breach evaluations;
      metric_evaluations = evaluations;
    }

abbrev pub AllRecovered : List RecoveryMetricEvaluation → Type 0
AllRecovered = All (λ (e : RecoveryMetricEvaluation). e.status ≡ recovered)

no_other_status :
    (es : List RecoveryMetricEvaluation) (status : RecoveryDecision)
    → (recovered == status) ≡ false
    → AllRecovered es
    → any (has_status status) es ≡ false
no_other_status [] status n all_recovered = refl
no_other_status (e ∷ es) status n (first, rest) = rw first (rw n (no_other_status es status n rest))

with_role-recovered :
    (role : MetricRole) (es : List RecoveryMetricEvaluation)
    → AllRecovered es
    → all is_recovered (with_role role es) ≡ true
unfolding RecoveryDecision-discrete
with_role-recovered role [] all_recovered = refl
with_role-recovered role (e ∷ es) (first, rest) = elim (Bool-cases (e.role == role)) [
  | inl t ↦ rw t (rw first (with_role-recovered role es rest))
  | inr f ↦ rw f (with_role-recovered role es rest)
]

role_cases : (r : MetricRole) → (r ≡ primary) ⊎ (r ≡ guardrail)
role_cases primary = inl refl
role_cases guardrail = inr refl

bool_beq_refl : (b : Bool) → bool_beq b b ≡ true
bool_beq_refl true = refl
bool_beq_refl false = refl

roles_cover :
    (es : List RecoveryMetricEvaluation)
    → all is_recovered (with_role primary es) ≡ true
    → all is_recovered (with_role guardrail es) ≡ true
    → AllRecovered es
unfolding MetricRole-discrete
roles_cover [] p g = tt
roles_cover (e ∷ es) p g = elim (role_cases e.role) [
  | inl r ↦
      let (first, rest) = &&_true (e.status == recovered) _ (rw r at p) in
      (beq→eq e.status recovered first, roles_cover es rest (rw r at g))
  | inr r ↦
      let (first, rest) = &&_true (e.status == recovered) _ (rw r at g) in
      (beq→eq e.status recovered first, roles_cover es (rw r at p) rest)
]

-- The guardrails have no severe breach.
abbrev pub CalmGuardrails : List RecoveryMetricEvaluation → Type 0
CalmGuardrails =
    All (λ (e : RecoveryMetricEvaluation). (e.role ≡ primary) ⊎ (e.severe_breach ≡ false))

calm-CalmGuardrails :
    (es : List RecoveryMetricEvaluation) → is_severe_breach es ≡ false → CalmGuardrails es
unfolding MetricRole-discrete
calm-CalmGuardrails [] h = tt
calm-CalmGuardrails (e ∷ es) h = elim (role_cases e.role) [
  | inl r ↦ (inl r, calm-CalmGuardrails es (rw r at h))
  | inr r ↦
      let (first, rest) = ||_false e.severe_breach (is_severe_breach es) (rw r at h) in
      (inr first, calm-CalmGuardrails es rest)
]

CalmGuardrails-calm :
    (es : List RecoveryMetricEvaluation) → CalmGuardrails es → is_severe_breach es ≡ false
unfolding MetricRole-discrete
CalmGuardrails-calm [] h = refl
CalmGuardrails-calm (e ∷ es) (first, rest) = elim (role_cases e.role) [
  | inl r ↦ rw r (CalmGuardrails-calm es rest)
  | inr r ↦ elim first [
    | inl p ↦ absurd (cc (sym p ∙ r))
    | inr calm ↦ rw r (rw calm (CalmGuardrails-calm es rest))
  ]
]

-- The decision is `recovered` exactly when every metric, primary or guardrail, is recovered and no
-- guardrail has a severe breach.
pub recovery_decision-recovered_iff :
    (evaluations : List RecoveryMetricEvaluation)
    → (recovery_decision evaluations ≡ recovered)
      ↔ (AllRecovered evaluations × CalmGuardrails evaluations)
unfolding recovery_decision RecoveryDecision-discrete
recovery_decision-recovered_iff es = (
  (λ h. elim (Bool-cases (is_severe_breach es || any (has_status failed) es)) [
    | inl t ↦ absurd (cc (rw t at h))
    | inr f ↦ elim (Bool-cases (any (has_status insufficient_data) es)) [
      | inl t ↦ absurd (cc (rw (f, t) at h))
      | inr g ↦
          elim (Bool-cases (
            all is_recovered (with_role primary es) && all is_recovered (with_role guardrail es))) [
              | inl both ↦
                  let (p, q) = &&_true _ (all is_recovered (with_role guardrail es)) both in
                  (
                    roles_cover es p q,
                    calm-CalmGuardrails es (||_false (is_severe_breach es) _ f).0,
                  )
              | inr n ↦ absurd (cc (rw (f, g, n) at h))
            ]
    ]
  ]),
  (λ (all_recovered, calm). rw (
    CalmGuardrails-calm es calm,
    no_other_status es failed refl all_recovered,
    no_other_status es insufficient_data refl all_recovered,
    with_role-recovered primary es all_recovered,
    with_role-recovered guardrail es all_recovered,
  )),
)
