-- ===== src/Investigation/Comparison.antt =====
-- `==` on the models of a scored report, src/paic/investigation/models.py: field by field, item by
-- item.
use probabilistic_ai_inciden.Base.{
  ◌≡◌, refl, String, Bool, true, false, ◌&&◌, Option, none, some, List, [], ◌∷◌, ◌==◌, string_eq,
  beq_refl, All, All-weaken, ap, beq→eq, &&_true,
}
use probabilistic_ai_inciden.Investigation.Report.{ReportStatus, concluded, abstained, failed}
use probabilistic_ai_inciden.Investigation.Proposal.{
  Floats, EvidenceDirection, support, contradict, same_direction, EvidenceAssessment,
  HypothesisProposal, InvestigationProposal, ComputedHypothesis, ScoredReport,
}

module _ {A : Type 0} (eq : A → A → Bool) where
  abbrev pub list_eq : List A → List A → Bool
  list_eq [] [] = true
  list_eq (x ∷ xs) (y ∷ ys) = eq x y && list_eq xs ys
  list_eq _ _ = false

  abbrev pub option_eq : Option A → Option A → Bool
  option_eq none none = true
  option_eq (some x) (some y) = eq x y
  option_eq _ _ = false

  pub list_eq_refl : (xs : List A) → All (λ x. eq x x ≡ true) xs → list_eq xs xs ≡ true
  list_eq_refl [] h = refl
  list_eq_refl (x ∷ xs) h = rw (h.0, list_eq_refl xs h.1) refl

abbrev text_eq : String → String → Bool
text_eq a b = a == b

abbrev status_eq : ReportStatus → ReportStatus → Bool
status_eq concluded concluded = true
status_eq abstained abstained = true
status_eq failed failed = true
status_eq _ _ = false

module _ (F : Floats) where
  unfoldable pub assessment_eq : EvidenceAssessment F → EvidenceAssessment F → Bool
  assessment_eq a b =
      text_eq a.evidence_record_id b.evidence_record_id
      && same_direction a.direction b.direction
      && F.eq a.likelihood_ratio b.likelihood_ratio
      && text_eq a.explanation b.explanation

  unfoldable pub hypothesis_eq : HypothesisProposal F → HypothesisProposal F → Bool
  hypothesis_eq a b =
      text_eq a.hypothesis_id b.hypothesis_id
      && text_eq a.title b.title
      && F.eq a.prior_probability b.prior_probability
      && text_eq a.rationale b.rationale
      && list_eq assessment_eq a.evidence b.evidence
      && list_eq text_eq a.falsifiers b.falsifiers

  unfoldable pub proposal_eq : InvestigationProposal F → InvestigationProposal F → Bool
  proposal_eq a b =
      text_eq a.summary b.summary
      && list_eq hypothesis_eq a.hypotheses b.hypotheses
      && list_eq text_eq a.explicit_unknowns b.explicit_unknowns
      && list_eq text_eq a.recommended_next_steps b.recommended_next_steps

  unfoldable pub computed_eq : ComputedHypothesis F → ComputedHypothesis F → Bool
  computed_eq a b =
      text_eq a.hypothesis_id b.hypothesis_id
      && text_eq a.title b.title
      && F.eq a.prior_probability b.prior_probability
      && F.eq a.posterior_probability b.posterior_probability
      && F.eq a.log_evidence_score b.log_evidence_score
      && text_eq a.rationale b.rationale
      && list_eq text_eq a.supporting_evidence_ids b.supporting_evidence_ids
      && list_eq text_eq a.contradicting_evidence_ids b.contradicting_evidence_ids
      && list_eq text_eq a.falsifiers b.falsifiers

  unfoldable pub report_eq : ScoredReport F → ScoredReport F → Bool
  report_eq a b =
      status_eq a.status b.status
      && option_eq text_eq a.selected_hypothesis_id b.selected_hypothesis_id
      && F.eq a.confidence b.confidence
      && F.eq a.normalized_entropy b.normalized_entropy
      && F.eq a.posterior_margin b.posterior_margin
      && list_eq computed_eq a.hypotheses b.hypotheses
      && list_eq text_eq a.explicit_unknowns b.explicit_unknowns
      && list_eq text_eq a.recommended_next_steps b.recommended_next_steps
      && list_eq text_eq a.observed_evidence_record_ids b.observed_evidence_record_ids
      && proposal_eq a.proposal b.proposal

  -- The float is not NaN: it equals itself.
  abbrev pub IsNumber : F.Float → Type 0
  IsNumber x = F.eq x x ≡ true

  abbrev pub HasNumbers : HypothesisProposal F → Type 0
  HasNumbers h =
      IsNumber h.prior_probability
      × All (λ (a : EvidenceAssessment F). IsNumber a.likelihood_ratio) h.evidence

  abbrev pub ComputesNumbers : ComputedHypothesis F → Type 0
  ComputesNumbers c =
      IsNumber c.prior_probability
      × IsNumber c.posterior_probability
      × IsNumber c.log_evidence_score

  -- No float of the report is NaN.
  pub record AllNumbers (r : ScoredReport F) : Type 0 where
    pub confidence : IsNumber r.confidence
    pub entropy : IsNumber r.normalized_entropy
    pub margin : IsNumber r.posterior_margin
    pub computed : All ComputesNumbers r.hypotheses
    pub proposed : All HasNumbers r.proposal.hypotheses

  -- Two reports that agree: in each text, and in each float by `==`.
  pub record Agrees (a b : ScoredReport F) : Type 0 where
    pub status : a.status ≡ b.status
    pub selected : a.selected_hypothesis_id ≡ b.selected_hypothesis_id
    pub confidence : F.eq a.confidence b.confidence ≡ true
    pub entropy : F.eq a.normalized_entropy b.normalized_entropy ≡ true
    pub margin : F.eq a.posterior_margin b.posterior_margin ≡ true
    pub hypotheses : list_eq computed_eq a.hypotheses b.hypotheses ≡ true
    pub unknowns : a.explicit_unknowns ≡ b.explicit_unknowns
    pub next_steps : a.recommended_next_steps ≡ b.recommended_next_steps
    pub evidence : a.observed_evidence_record_ids ≡ b.observed_evidence_record_ids

  texts_eq_refl : (xs : List String) → list_eq text_eq xs xs ≡ true
  texts_eq_refl [] = refl
  texts_eq_refl (x ∷ xs) = rw (beq_refl x, texts_eq_refl xs) refl

  selected_eq_refl : (o : Option String) → option_eq text_eq o o ≡ true
  selected_eq_refl none = refl
  selected_eq_refl (some x) = beq_refl x

  direction_eq_refl : (d : EvidenceDirection) → same_direction d d ≡ true
  direction_eq_refl support = refl
  direction_eq_refl contradict = refl

  status_eq_refl : (s : ReportStatus) → status_eq s s ≡ true
  status_eq_refl concluded = refl
  status_eq_refl abstained = refl
  status_eq_refl failed = refl

  assessment_eq_refl :
      (a : EvidenceAssessment F) → IsNumber a.likelihood_ratio → assessment_eq a a ≡ true
  unfolding assessment_eq
  assessment_eq_refl a n =
      rw (beq_refl a.evidence_record_id, direction_eq_refl a.direction, n, beq_refl a.explanation)
        refl

  hypothesis_eq_refl : (h : HypothesisProposal F) → HasNumbers h → hypothesis_eq h h ≡ true
  unfolding hypothesis_eq
  hypothesis_eq_refl h (prior, ratios) =
      rw
        (
          beq_refl h.hypothesis_id,
          beq_refl h.title,
          prior,
          beq_refl h.rationale,
          list_eq_refl assessment_eq h.evidence (All-weaken assessment_eq_refl h.evidence ratios),
          texts_eq_refl h.falsifiers,
        )
        refl

  proposal_eq_refl :
      (p : InvestigationProposal F) → All HasNumbers p.hypotheses → proposal_eq p p ≡ true
  unfolding proposal_eq
  proposal_eq_refl p n =
      rw
        (
          beq_refl p.summary,
          list_eq_refl hypothesis_eq p.hypotheses (All-weaken hypothesis_eq_refl p.hypotheses n),
          texts_eq_refl p.explicit_unknowns,
          texts_eq_refl p.recommended_next_steps,
        )
        refl

  computed_eq_refl : (c : ComputedHypothesis F) → ComputesNumbers c → computed_eq c c ≡ true
  unfolding computed_eq
  computed_eq_refl c (prior, posterior, score) =
      rw
        (
          beq_refl c.hypothesis_id,
          beq_refl c.title,
          prior,
          posterior,
          score,
          beq_refl c.rationale,
          texts_eq_refl c.supporting_evidence_ids,
          texts_eq_refl c.contradicting_evidence_ids,
          texts_eq_refl c.falsifiers,
        )
        refl

  pub report_eq_refl : (r : ScoredReport F) → AllNumbers r → report_eq r r ≡ true
  unfolding report_eq
  report_eq_refl r n =
      rw
        (
          status_eq_refl r.status,
          selected_eq_refl r.selected_hypothesis_id,
          n.confidence,
          n.entropy,
          n.margin,
          list_eq_refl computed_eq r.hypotheses
              (All-weaken computed_eq_refl r.hypotheses n.computed),
          texts_eq_refl r.explicit_unknowns,
          texts_eq_refl r.recommended_next_steps,
          texts_eq_refl r.observed_evidence_record_ids,
          proposal_eq_refl r.proposal n.proposed,
        )
        refl

  texts_eq-same : (xs ys : List String) → list_eq text_eq xs ys ≡ true → xs ≡ ys
  texts_eq-same [] [] h = refl
  texts_eq-same [] (y ∷ ys) h = cc
  texts_eq-same (x ∷ xs) [] h = cc
  texts_eq-same (x ∷ xs) (y ∷ ys) h =
      let (first, rest) = &&_true (text_eq x y) _ h in
      λ i. beq→eq x y first i ∷ texts_eq-same xs ys rest i

  selected_eq-same : (a b : Option String) → option_eq text_eq a b ≡ true → a ≡ b
  selected_eq-same none none h = refl
  selected_eq-same none (some y) h = cc
  selected_eq-same (some x) none h = cc
  selected_eq-same (some x) (some y) h = ap some (beq→eq x y h)

  status_eq-same : (a b : ReportStatus) → status_eq a b ≡ true → a ≡ b
  status_eq-same concluded concluded h = refl
  status_eq-same concluded abstained h = cc
  status_eq-same concluded failed h = cc
  status_eq-same abstained concluded h = cc
  status_eq-same abstained abstained h = refl
  status_eq-same abstained failed h = cc
  status_eq-same failed concluded h = cc
  status_eq-same failed abstained h = cc
  status_eq-same failed failed h = refl

  pub report_eq-Agrees : (a b : ScoredReport F) → report_eq a b ≡ true → Agrees a b
  unfolding report_eq
  report_eq-Agrees a b h0 =
      let (h1, _) = &&_true _ (proposal_eq a.proposal b.proposal) h0 in
      let (h2, evidence) =
        &&_true _ (list_eq text_eq a.observed_evidence_record_ids b.observed_evidence_record_ids)
          h1 in
      let (h3, steps) =
        &&_true _ (list_eq text_eq a.recommended_next_steps b.recommended_next_steps) h2 in
      let (h4, unknowns) = &&_true _ (list_eq text_eq a.explicit_unknowns b.explicit_unknowns) h3 in
      let (h5, hypotheses) = &&_true _ (list_eq computed_eq a.hypotheses b.hypotheses) h4 in
      let (h6, margin) = &&_true _ (F.eq a.posterior_margin b.posterior_margin) h5 in
      let (h7, entropy) = &&_true _ (F.eq a.normalized_entropy b.normalized_entropy) h6 in
      let (h8, confidence) = &&_true _ (F.eq a.confidence b.confidence) h7 in
      let (status, selected) =
        &&_true (status_eq a.status b.status)
          (option_eq text_eq a.selected_hypothesis_id b.selected_hypothesis_id) h8 in
      record {
        status = status_eq-same a.status b.status status;
        selected = selected_eq-same a.selected_hypothesis_id b.selected_hypothesis_id selected;
        confidence = confidence;
        entropy = entropy;
        margin = margin;
        hypotheses = hypotheses;
        unknowns = texts_eq-same a.explicit_unknowns b.explicit_unknowns unknowns;
        next_steps = texts_eq-same a.recommended_next_steps b.recommended_next_steps steps;
        evidence =
            texts_eq-same a.observed_evidence_record_ids b.observed_evidence_record_ids evidence;
      }
