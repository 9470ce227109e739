-- ===== src/Recovery/Lifecycle/Transition.antt =====
-- When `transition_state` of lifecycle.py returns, and what it returns.
use probabilistic_ai_inciden.Base.{
  ◌<◌, ◌≡◌, ◌↔◌, refl, ap, sym, ◌∙◌, subst, String, Bool, true, false, not, ◌&&◌, ◌||◌, some, List,
  [], ◌∷◌, ◌++◌, inl, inr, arith, length, length-append, leb, le→leb, ◌!=◌, string_eq, beq_refl,
  passes_ne, same→passes, or_false, ||_false, &&_true, &&_intro, Bool-cases, not-false, ok, err,
  ok-injective, >>=-eq-ok, reject_if-eq-ok, reject_if-false,
}
use probabilistic_ai_inciden.Base.Membership.{
  has, Distinct, Distinct-snoc, is_unique→Distinct, Distinct→is_unique, has_false→not_In,
}
use probabilistic_ai_inciden.Recovery.Models.{
  LifecycleStatus, monitoring, recovered, reopened, RecoveryDecision, recovering, failed,
  insufficient_data, RecoveryConfig, RecoveryReport, RecoveryLifecycleState, is_last,
  status_is_valid, lifecycle_is_valid, Digests,
}
use probabilistic_ai_inciden.Recovery.Lifecycle.{
  hash_mismatch, other_incident, other_execution, other_manifest, other_recovery, policy_mismatch,
  already_applied, out_of_order, invalid_state, Trigger, Judgement, is_severe_reopening,
  at_threshold, judge_regression, judge, says_recovered, next_state, is_not_later, check_report,
  transition_state,
}

-- The report belongs to the lifecycle, is new to it and is later than the reports before it.
pub record Fits (digests : Digests) (previous : RecoveryLifecycleState) (report : RecoveryReport)
    (config : RecoveryConfig) : Type 0 where
  pub own_hash : report.report_sha256 ≡ digests.report_digest report.body
  pub incident : report.incident_id ≡ previous.incident_id
  pub execution : report.execution_receipt_sha256 ≡ previous.execution_receipt_sha256
  pub manifest : report.execution_manifest_sha256 ≡ previous.execution_manifest_sha256
  pub recovery : report.recovery_id ≡ previous.recovery_id
  pub report_policy : report.config_sha256 ≡ previous.config_sha256
  pub policy : digests.config_digest config ≡ previous.config_sha256
  pub fresh : has previous.applied_report_sha256s report.report_sha256 ≡ false
  pub later : is_not_later report.evaluated_at previous.last_evaluated_at ≡ false

-- A decision that says the incident is not over.
abbrev pub is_degraded : RecoveryDecision → Bool
is_degraded recovering = true
is_degraded failed = true
is_degraded _ = false

-- A severe breach that reopens at once, reported of an incident that has never recovered.
abbrev pub is_premature : RecoveryLifecycleState → RecoveryReport → RecoveryConfig → Bool
is_premature previous report config =
    not previous.ever_recovered
    && (report.severe_guardrail_breach && config.immediate_reopen_on_severe_guardrail)
    && is_degraded report.decision

is_last-snoc : (xs : List String) (x : String) → is_last (xs ++ x ∷ []) (some x) ≡ true
unfolding is_last
is_last-snoc [] x = beq_refl x
is_last-snoc (y ∷ []) x = beq_refl x
is_last-snoc (y ∷ z ∷ zs) x = is_last-snoc (z ∷ zs) x

-- The parts of a valid lifecycle state.
pub record LifecycleParts (s : RecoveryLifecycleState) : Type 0 where
  pub reports : Distinct s.applied_report_sha256s
  pub standing : status_is_valid s.status s.ever_recovered ≡ true

pub lifecycle_is_valid-parts :
    (s : RecoveryLifecycleState) → lifecycle_is_valid s ≡ true → LifecycleParts s
unfolding lifecycle_is_valid
lifecycle_is_valid-parts s h =
    let (h1, standing) = &&_true _ (status_is_valid s.status s.ever_recovered) h in
    let (h2, _) = &&_true _ (is_last s.applied_report_sha256s s.last_report_sha256) h1 in
    let (_, unique) = &&_true (leb (length s.applied_report_sha256s) 10_000) _ h2 in
    record { reports = is_unique→Distinct s.applied_report_sha256s unique; standing = standing }

module _ (digests : Digests) (previous : RecoveryLifecycleState) (report : RecoveryReport)
    (config : RecoveryConfig) where
  check_report-Fits :
      check_report digests previous report config ≡ ok tt → Fits digests previous report config
  unfolding check_report
  check_report-Fits h =
      let (e1, h1) =
        reject_if-eq-ok (report.report_sha256 != digests.report_digest report.body) hash_mismatch _
          h in
      let (e2, h2) =
        reject_if-eq-ok (report.incident_id != previous.incident_id) other_incident _ h1 in
      let (e3, h3) =
        reject_if-eq-ok (report.execution_receipt_sha256 != previous.execution_receipt_sha256)
          other_execution _ h2 in
      let (e4, h4) =
        reject_if-eq-ok (report.execution_manifest_sha256 != previous.execution_manifest_sha256)
          other_manifest _ h3 in
      let (e5, h5) =
        reject_if-eq-ok (report.recovery_id != previous.recovery_id) other_recovery _ h4 in
      let (e6, h6) =
        reject_if-eq-ok
          (report.config_sha256 != previous.config_sha256
            || digests.config_digest config != previous.config_sha256)
          policy_mismatch _ h5 in
      let (e7, h7) =
        reject_if-eq-ok (has previous.applied_report_sha256s report.report_sha256) already_applied _
          h6 in
      let (e8, _) =
        reject_if-eq-ok (is_not_later report.evaluated_at previous.last_evaluated_at) out_of_order _
          h7 in
      let (p, q) = ||_false (report.config_sha256 != previous.config_sha256) _ e6 in
      record {
        own_hash = passes_ne _ _ e1;
        incident = passes_ne _ _ e2;
        execution = passes_ne _ _ e3;
        manifest = passes_ne _ _ e4;
        recovery = passes_ne _ _ e5;
        report_policy = passes_ne _ _ p;
        policy = passes_ne _ _ q;
        fresh = e7;
        later = e8;
      }

  Fits-check_report :
      Fits digests previous report config → check_report digests previous report config ≡ ok tt
  unfolding check_report
  Fits-check_report f = reject_if-false _ _ _ (same→passes _ _ f.own_hash) (
      reject_if-false _ _ _ (same→passes _ _ f.incident) (
        reject_if-false _ _ _ (same→passes _ _ f.execution) (
          reject_if-false _ _ _ (same→passes _ _ f.manifest) (
            reject_if-false _ _ _ (same→passes _ _ f.recovery) (
              reject_if-false _ _ _
                (or_false (same→passes _ _ f.report_policy) (same→passes _ _ f.policy))
                (reject_if-false _ _ _ f.fresh (reject_if-false _ _ _ f.later refl)))))))

  -- The judgement before it is checked.
  abbrev pub judgement : Judgement
  judgement = judge previous.status report.decision previous report config

  -- A transition that returned, step by step.
  pub record Transits (next : RecoveryLifecycleState) (trigger : Trigger) : Type 0 where
    pub fits : Fits digests previous report config
    pub is_next : next ≡ next_state previous report judgement
    pub is_trigger : trigger ≡ judgement.trigger
    pub is_valid : lifecycle_is_valid next ≡ true

  pub transition_state-Transits :
      (out : RecoveryLifecycleState × Trigger)
      → transition_state digests previous report config ≡ ok out
      → Transits out.0 out.1
  unfolding transition_state
  transition_state-Transits out h =
      let (_, checked, h1) = >>=-eq-ok (check_report digests previous report config) _ h in
      let (v, h2) =
        reject_if-eq-ok (not (lifecycle_is_valid (next_state previous report judgement)))
          invalid_state _ h1 in
      subst (λ (o : RecoveryLifecycleState × Trigger). Transits o.0 o.1) (ok-injective h2)
        (record {
          fits = check_report-Fits checked;
          is_next = refl;
          is_trigger = refl;
          is_valid = not-false _ v;
        })

right_false : (b : Bool) → (b || false) ≡ b
right_false b = ground arith

right_true : (b : Bool) → (b && true) ≡ b
right_true b = ground arith

-- The status that a judgement gives is one that the validator accepts, unless it is premature.
module _ (previous : RecoveryLifecycleState) (report : RecoveryReport)
    (config : RecoveryConfig) where
  regression_standing :
      status_is_valid (judge_regression previous report config).status previous.ever_recovered
      ≡ not (not previous.ever_recovered && is_severe_reopening report config)
  unfolding judge_regression
  regression_standing = elim (Bool-cases previous.ever_recovered) [
    | inl t ↦
        elim (Bool-cases (is_severe_reopening report config || at_threshold previous config)) [
          | inl a ↦ rw a (rw t)
          | inr b ↦ rw b (rw t)
        ]
    | inr f ↦ elim (Bool-cases (is_severe_reopening report config)) [
      | inl a ↦ rw (a, f)
      | inr b ↦ rw (b, f)
    ]
  ]

  degraded_standing :
      status_is_valid
        (judge_regression previous report config).status
        (previous.ever_recovered || false)
      ≡ not (not previous.ever_recovered && is_severe_reopening report config && true)
  degraded_standing = rw (right_false previous.ever_recovered) (
      rw (right_true (not previous.ever_recovered && is_severe_reopening report config))
        regression_standing)

  judge_standing :
      (s : LifecycleStatus) (d : RecoveryDecision)
      → status_is_valid s previous.ever_recovered ≡ true
      → status_is_valid
          (judge s d previous report config).status
          (previous.ever_recovered || says_recovered d)
        ≡ not (not previous.ever_recovered && is_severe_reopening report config && is_degraded d)
  unfolding judge
  judge_standing reopened RecoveryDecision.recovered v = rw v
  judge_standing reopened recovering v = rw v
  judge_standing reopened failed v = rw v
  judge_standing reopened insufficient_data v = rw v
  judge_standing recovered RecoveryDecision.recovered v = rw v
  judge_standing recovered recovering v = degraded_standing
  judge_standing recovered failed v = degraded_standing
  judge_standing recovered insufficient_data v = rw v
  judge_standing monitoring RecoveryDecision.recovered v = ground arith
  judge_standing monitoring recovering v = degraded_standing
  judge_standing monitoring failed v = degraded_standing
  judge_standing monitoring insufficient_data v = ground arith

last_false : (a : Bool) {b : Bool} → b ≡ false → (a && b) ≡ false
last_false a {b} h = ground arith

module _ (digests : Digests) (previous : RecoveryLifecycleState) (report : RecoveryReport)
    (config : RecoveryConfig) (valid : lifecycle_is_valid previous ≡ true) where
  -- The next state is valid unless it is premature.
  next_state-valid :
      length previous.applied_report_sha256s < 10_000
      → Fits digests previous report config
      → is_premature previous report config ≡ false
      → lifecycle_is_valid (next_state previous report (judgement digests previous report config))
        ≡ true
  unfolding lifecycle_is_valid
  next_state-valid few fits calm =
      let old = lifecycle_is_valid-parts previous valid in
      &&_intro
        (&&_intro
          (&&_intro
            (le→leb _ _ (
              omega (
                arith,
                few,
                length-append previous.applied_report_sha256s (report.report_sha256 ∷ []),
              )))
            (Distinct→is_unique (previous.applied_report_sha256s ++ report.report_sha256 ∷ []) (
              Distinct-snoc previous.applied_report_sha256s report.report_sha256 old.reports
                (has_false→not_In previous.applied_report_sha256s _ fits.fresh))))
          (is_last-snoc previous.applied_report_sha256s report.report_sha256))
        (judge_standing previous report config previous.status report.decision old.standing
          ∙ ap not calm)

  next_state-invalid :
      is_premature previous report config ≡ true
      → lifecycle_is_valid (next_state previous report (judgement digests previous report config))
        ≡ false
  unfolding lifecycle_is_valid
  next_state-invalid premature =
      let old = lifecycle_is_valid-parts previous valid in
      let bad =
        judge_standing previous report config previous.status report.decision old.standing
        ∙ ap not premature in
      last_false _ bad

  transition_state-returns :
      length previous.applied_report_sha256s < 10_000
      → Fits digests previous report config
      → is_premature previous report config ≡ false
      → transition_state digests previous report config
        ≡ ok (
          next_state previous report (judgement digests previous report config),
          (judgement digests previous report config).trigger,
        )
  unfolding transition_state
  transition_state-returns few fits calm =
      rw (Fits-check_report digests previous report config fits)
        (rw (next_state-valid few fits calm) refl)

  -- From a valid state that has applied fewer than 10,000 reports, `transition_state` returns
  -- exactly when the report passes each of its tests and is not premature: it does not say, as a
  -- degraded decision, that an incident which has never recovered has a severe guardrail breach
  -- while the configuration reopens at once on one.
  pub transition_state_iff :
      length previous.applied_report_sha256s < 10_000
      → ((out : RecoveryLifecycleState × Trigger) × (transition_state digests previous report config
            ≡ ok out))
        ↔ (Fits digests previous report config × (is_premature previous report config ≡ false))
  transition_state_iff few = (
    (λ returned.
        let t = transition_state-Transits digests previous report config returned.0 returned.1 in
        (
          t.fits,
          elim (Bool-cases (is_premature previous report config)) [
            | inr calm ↦ calm
            | inl premature ↦ absurd (
                cc (
                  next_state-invalid premature,
                  ap lifecycle_is_valid (sym t.is_next) ∙ t.is_valid,
                ))
          ],
        )),
    (λ (fits, calm). (_, transition_state-returns few fits calm)),
  )

  -- A report that passes each test of `transition_state` but is a severe breach, under immediate
  -- reopening, of an incident that has never recovered is refused by the validator of the state:
  -- the error is none of those of `transition_state` itself.
  pub transition_state-premature :
      Fits digests previous report config
      → is_premature previous report config ≡ true
      → transition_state digests previous report config ≡ err invalid_state
  unfolding transition_state
  transition_state-premature fits premature =
      rw (Fits-check_report digests previous report config fits) (rw (next_state-invalid premature))
