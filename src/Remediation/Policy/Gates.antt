-- ===== src/Remediation/Policy/Gates.antt =====
-- `assess_proposal` of policy.py against an independent list of the gates.
use probabilistic_ai_inciden.Base.{
  ℕ, ◌≤◌, ◌≡◌, ◌≢◌, ◌↔◌, refl, ap, sym, subst, String, Bool, true, false, not, ◌&&◌, Option, none,
  some, List, [], ◌∷◌, ◌++◌, arith, All, length, ltb_false→le, le→ltb_false, string_eq, beq→eq,
  eq→beq, passes_ne, same→passes, not-false, or_false, ||_false, ok, >>=-eq-ok,
}
use probabilistic_ai_inciden.Base.Membership.{
  has, In, Subset, In-All, has→In, In→has, is_subset, is_subset→Subset, Subset→is_subset,
}
use probabilistic_ai_inciden.Investigation.Report.{
  InvestigationReport, ComputedHypothesis, ReportStatus, concluded, abstained, failed,
}
use probabilistic_ai_inciden.Remediation.Models.{
  RiskLevel, low, medium, high, critical, ControlState, RemediationAction, action_base, ActionType,
  action_type, target_id, action_type_eq,
}
use probabilistic_ai_inciden.Remediation.Models.Plan.{
  RemediationProposal, PolicyDecision, Reason, allow,
}
use probabilistic_ai_inciden.Remediation.Config.{RemediationConfig}
use probabilistic_ai_inciden.Remediation.Policy.Risk.{aggregate_risk_bounds}
use probabilistic_ai_inciden.Remediation.Severity.{
  blast_order, action_risk, aggregate_risk, required_approvals, risk_order,
}
use probabilistic_ai_inciden.Remediation.Policy.{
  resource_at, reason_if, validate_action_state, is_selected, selected_hypothesis, is_concluded,
  is_critical, hypothesis_reasons, report_reasons, allowed_evidence, state_issue, action_reasons,
  loop_reasons, all_reasons, decide, assess_proposal,
}

-- The selected hypothesis is likely enough, and has enough support.
abbrev pub Supports : RemediationConfig → ComputedHypothesis → Type 0
Supports config h =
    (config.investigation_gate.minimum_selected_posterior ≤ h.posterior_probability)
    × (config.investigation_gate.minimum_supporting_evidence ≤ length h.supporting_evidence_ids)

-- What the report, the state and the proposal must have together.
pub record ReportGates (report : InvestigationReport) (state : ControlState)
    (proposal : RemediationProposal) (config : RemediationConfig) : Type 0 where
  pub is_concluded : report.status ≡ concluded
  pub bound : report.report_sha256 ≡ proposal.investigation_report_sha256
  pub incident : report.incident_id ≡ proposal.incident_id
  pub state_incident : state.incident_id ≡ proposal.incident_id
  pub selected : report.selected_hypothesis_id ≡ some proposal.selected_hypothesis_id
  pub hypothesis :
      (h : ComputedHypothesis) × (selected_hypothesis report ≡ some h) × Supports config h
  pub confident : config.investigation_gate.minimum_confidence ≤ report.confidence
  pub margin : config.investigation_gate.minimum_posterior_margin ≤ report.posterior_margin
  pub entropy : report.normalized_entropy ≤ config.investigation_gate.maximum_normalized_entropy
  pub count : length proposal.actions ≤ config.remediation.maximum_actions

-- What one action must have.
pub record ActionGates (report : InvestigationReport) (state : ControlState)
    (config : RemediationConfig) (action : RemediationAction) : Type 0 where
  pub type_allowed : In (action_type action) config.remediation.allowed_action_types
  pub radius :
      blast_order (action_base action).blast_radius
      ≤ blast_order config.remediation.maximum_blast_radius
  pub observed : Subset (action_base action).evidence_ids report.observed_evidence_record_ids
  pub supported :
      Subset (action_base action).evidence_ids (allowed_evidence (selected_hypothesis report))
  pub applicable :
      validate_action_state action (resource_at state.resources (target_id action)) ≡ none

-- A proposal that the policy must let through.
pub record Authorized (report : InvestigationReport) (state : ControlState)
    (proposal : RemediationProposal) (config : RemediationConfig) : Type 0 where
  pub report_gates : ReportGates report state proposal config
  pub action_gates : All (ActionGates report state config) proposal.actions
  pub no_critical :
      config.remediation.deny_critical_risk ≡ true
      → (a : RemediationAction) → In a proposal.actions
      → action_risk a ≢ critical

append-eq-nil {ℓ} : {A : Type ℓ} (xs ys : List A) → xs ++ ys ≡ [] → (xs ≡ []) × (ys ≡ [])
append-eq-nil [] ys h = (refl, h)
append-eq-nil (x ∷ xs) ys h = cc

reason_if-nil : (b : Bool) (r : Reason) → reason_if b r ≡ [] → b ≡ false
reason_if-nil true r h = cc
reason_if-nil false r h = refl

-- A test that adds no reason, before the rest.
split :
    (b : Bool) (r : Reason) (rest : List Reason)
    → reason_if b r ++ rest ≡ []
    → (b ≡ false) × (rest ≡ [])
split true r rest h = cc
split false r rest h = (refl, h)

join :
    (b : Bool) (r : Reason) (rest : List Reason)
    → b ≡ false
    → rest ≡ []
    → reason_if b r ++ rest ≡ []
join true r rest e h = cc
join false r rest e h = h

status_test : (s : ReportStatus) → (not (is_concluded s) ≡ false) ↔ (s ≡ concluded)
status_test concluded = ((λ _. refl), (λ _. refl))
status_test abstained = ((λ h. cc), (λ h. cc))
status_test failed = ((λ h. cc), (λ h. cc))

selected_test : (o : Option String) (id : String) → (not (is_selected o id) ≡ false) ↔ (o ≡ some id)
selected_test none id = ((λ h. cc), (λ h. cc))
selected_test (some s) id =
    ((λ h. ap some (sym (beq→eq id s (not-false _ h)))), (λ h. ap not (eq→beq id s (cc h))))

subset_test : (xs ys : List String) → (not (is_subset xs ys) ≡ false) ↔ Subset xs ys
subset_test xs ys =
    ((λ h. is_subset→Subset xs ys (not-false _ h)), (λ h. ap not (Subset→is_subset xs ys h)))

hypothesis-nil :
    (o : Option ComputedHypothesis) (config : RemediationConfig)
    → (hypothesis_reasons o config ≡ [])
      ↔ ((h : ComputedHypothesis) × (o ≡ some h) × Supports config h)
unfolding hypothesis_reasons
hypothesis-nil none config = ((λ h. cc), (λ h. cc (h.1)))
hypothesis-nil (some s) config = (
  (λ h.
      let e = split _ _ _ h in
      (s, refl, (ltb_false→le _ _ e.0, ltb_false→le _ _ (reason_if-nil _ _ e.1)))),
  (λ h.
      let k : Supports config s =
        subst (Supports config) {x = h.0} {y = s} (let e : h.0 ≡ s = cc (h.1) in e) h.2 in
      join _ _ _ (le→ltb_false _ _ k.0)
        (ap (λ b. reason_if b Reason.insufficient_support) (le→ltb_false _ _ k.1))),
)

module _ (report : InvestigationReport) (state : ControlState) (proposal : RemediationProposal)
    (config : RemediationConfig) where
  report_reasons-nil :
      report_reasons report state proposal config ≡ [] → ReportGates report state proposal config
  unfolding report_reasons
  report_reasons-nil h =
      let e1 = split _ _ _ h in
      let e2 = split _ _ _ e1.1 in
      let e3 = split _ _ _ e2.1 in
      let e4 = split _ _ _ e3.1 in
      let e5 = append-eq-nil (hypothesis_reasons (selected_hypothesis report) config) _ e4.1 in
      let e6 = split _ _ _ e5.1 in
      let e7 = split _ _ _ e6.1 in
      let e8 = split _ _ _ e7.1 in
      let incidents = ||_false _ _ e3.0 in
      let hyp = (hypothesis-nil (selected_hypothesis report) config).0 e5.0 in
      record {
        is_concluded = (status_test report.status).0 e1.0;
        bound = passes_ne _ _ e2.0;
        incident = passes_ne _ _ incidents.0;
        state_incident = passes_ne _ _ incidents.1;
        selected = (selected_test _ _).0 e4.0;
        hypothesis = hyp;
        confident = ltb_false→le _ _ e6.0;
        margin = ltb_false→le _ _ e7.0;
        entropy = ltb_false→le _ _ e8.0;
        count = ltb_false→le _ _ (reason_if-nil _ _ e8.1);
      }

  nil-report_reasons :
      ReportGates report state proposal config → report_reasons report state proposal config ≡ []
  unfolding report_reasons
  nil-report_reasons g = join _ _ _ ((status_test report.status).1 g.is_concluded) (
      join _ _ _ (same→passes _ _ g.bound) (
        join _ _ _ (or_false (same→passes _ _ g.incident) (same→passes _ _ g.state_incident)) (
          join _ _ _ ((selected_test _ _).1 g.selected) (
            rw ((hypothesis-nil (selected_hypothesis report) config).1 g.hypothesis) (
              join _ _ _ (le→ltb_false _ _ g.confident) (
                join _ _ _ (le→ltb_false _ _ g.margin) (
                  join _ _ _ (le→ltb_false _ _ g.entropy) (
                    ap (λ b. reason_if b Reason.too_many_actions) (le→ltb_false _ _ g.count)))))))))

state_issue-nil : (o : Option Reason) → (state_issue o ≡ []) ↔ (o ≡ none)
state_issue-nil none = ((λ _. refl), (λ _. refl))
state_issue-nil (some r) = ((λ h. cc), (λ h. cc))

type_test : (xs : List ActionType) (t : ActionType) → (not (has xs t) ≡ false) ↔ In t xs
type_test xs t = ((λ h. has→In xs t (not-false _ h)), (λ h. ap not (In→has xs t h)))

module _ (report : InvestigationReport) (state : ControlState) (config : RemediationConfig) where
  action_reasons-nil :
      (a : RemediationAction)
      → (action_reasons report state config a ≡ []) ↔ ActionGates report state config a
  unfolding action_reasons
  action_reasons-nil a = (
    (λ h.
        let e1 = split _ _ _ h in
        let e2 = split _ _ _ e1.1 in
        let e3 = split _ _ _ e2.1 in
        let e4 = split _ _ _ e3.1 in
        record {
          type_allowed = (type_test _ _).0 e1.0;
          radius = ltb_false→le _ _ e2.0;
          observed = (subset_test _ _).0 e3.0;
          supported = (subset_test _ _).0 e4.0;
          applicable = (state_issue-nil _).0 e4.1;
        }),
    (λ g. join _ _ _ ((type_test _ _).1 g.type_allowed) (
        join _ _ _ (le→ltb_false _ _ g.radius) (
          join _ _ _ ((subset_test _ _).1 g.observed)
            (join _ _ _ ((subset_test _ _).1 g.supported) ((state_issue-nil _).1 g.applicable))))),
  )

  loop_reasons-nil :
      (actions : List RemediationAction)
      → (loop_reasons report state config actions ≡ [])
        ↔ All (ActionGates report state config) actions
  unfolding loop_reasons
  loop_reasons-nil [] = ((λ _. tt), (λ _. refl))
  loop_reasons-nil (a ∷ rest) = (
    (λ h.
        let e = append-eq-nil (action_reasons report state config a) _ h in
        ((action_reasons-nil a).0 e.0, (loop_reasons-nil rest).0 e.1)),
    (λ g. rw ((action_reasons-nil a).1 g.0) ((loop_reasons-nil rest).1 g.1)),
  )

decide-allow :
    (reasons : List Reason) (risk : RiskLevel) (n : ℕ)
    → ((decide reasons risk n).outcome ≡ allow) ↔ (reasons ≡ [])
decide-allow [] risk n = ((λ _. refl), (λ _. refl))
decide-allow (r ∷ rest) risk n = ((λ h. cc), (λ h. cc))

critical_greatest : (r : RiskLevel) → risk_order critical ≤ risk_order r → r ≡ critical
critical_greatest low h = absurd (omega arith)
critical_greatest medium h = absurd (omega arith)
critical_greatest high h = absurd (omega arith)
critical_greatest critical h = refl

-- The last test of `assess_proposal`, read as a statement on the actions.
critical_test :
    (actions : List RemediationAction) (risk : RiskLevel) (deny : Bool)
    → aggregate_risk actions ≡ ok risk
    → ((is_critical risk && deny) ≡ false)
      ↔ (deny ≡ true → (a : RemediationAction) → In a actions → action_risk a ≢ critical)
critical_test actions risk deny h = (forward risk deny h, backward risk deny h)
  where
    forward :
        (risk : RiskLevel) (deny : Bool)
        → aggregate_risk actions ≡ ok risk
        → (is_critical risk && deny) ≡ false
        → deny ≡ true
        → (a : RemediationAction) → In a actions
        → action_risk a ≢ critical
    forward risk deny h f d a m e =
        let top =
          In-All (λ x. risk_order (action_risk x) ≤ risk_order risk) a actions
            (aggregate_risk_bounds actions risk h).0 m in
        let c : risk ≡ critical = critical_greatest risk (rw e at top) in
        cc (f, ap (λ r. is_critical r && deny) c, d)

    backward :
        (risk : RiskLevel) (deny : Bool)
        → aggregate_risk actions ≡ ok risk
        → (deny ≡ true → (a : RemediationAction) → In a actions → action_risk a ≢ critical)
        → (is_critical risk && deny) ≡ false
    backward low deny h f = refl
    backward medium deny h f = refl
    backward high deny h f = refl
    backward critical false h f = refl
    backward critical true h f =
        let (x, m, e) = (aggregate_risk_bounds actions critical h).1 in absurd (f refl x m e)

all_reasons-nil :
    (report : InvestigationReport) (state : ControlState) (proposal : RemediationProposal)
    (config : RemediationConfig) (risk : RiskLevel)
    → aggregate_risk proposal.actions ≡ ok risk
    → (all_reasons report state proposal config risk ≡ []) ↔ Authorized report state proposal config
unfolding all_reasons
all_reasons-nil report state proposal config risk found = (
  (λ h.
      let e = append-eq-nil (report_reasons report state proposal config) _ h in
      let f = append-eq-nil (loop_reasons report state config proposal.actions) _ e.1 in
      record {
        report_gates = report_reasons-nil report state proposal config e.0;
        action_gates = (loop_reasons-nil report state config proposal.actions).0 f.0;
        no_critical = (critical_test _ _ _ found).0 (reason_if-nil _ _ f.1);
      }),
  (λ g. rw (nil-report_reasons report state proposal config g.report_gates) (
      rw ((loop_reasons-nil report state config proposal.actions).1 g.action_gates) (
        ap (λ b. reason_if b Reason.critical_denied)
          ((critical_test _ _ _ found).1 g.no_critical)))),
)

-- The policy allows a proposal exactly when every gate holds: the report is concluded, bound to the
-- proposal and about its incident, as is the state; the selected hypothesis is the proposal's, is
-- likely enough and has enough support; confidence, margin and entropy are within their limits; the
-- actions are not too many; each has an allowed type and radius, cites observed evidence that
-- supports the hypothesis, and applies to the state; and none is critical where that is denied.
pub assess_proposal-allow_iff :
    (report : InvestigationReport) (state : ControlState) (proposal : RemediationProposal)
    (config : RemediationConfig) (decision : PolicyDecision)
    → assess_proposal report state proposal config ≡ ok decision
    → (decision.outcome ≡ allow) ↔ Authorized report state proposal config
unfolding assess_proposal
assess_proposal-allow_iff report state proposal config decision h =
    let (risk, found, e) = >>=-eq-ok (aggregate_risk proposal.actions) _ h in
    let d : decide (all_reasons report state proposal config risk) risk _ ≡ decision = cc in
    let all = all_reasons-nil report state proposal config risk found in
    let out =
      decide-allow (all_reasons report state proposal config risk) risk
        (required_approvals risk config) in
    subst (λ (x : PolicyDecision). (x.outcome ≡ allow) ↔ Authorized report state proposal config) d
      ((λ a. all.0 (out.0 a)), (λ g. out.1 (all.1 g)))
