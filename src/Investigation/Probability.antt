-- ===== src/Investigation/Probability.antt =====
-- src/paic/investigation/probability.py: the score of a proposal, and when it abstains.
pub mod Conclude
pub mod Ranking
pub mod Score
pub mod Verify
use probabilistic_ai_inciden.Base.{
  ℕ, String, Bool, true, false, not, ◌&&◌, leb, nat_beq, Option, none, some, List, [], ◌∷◌, ◌++◌,
  map, all, keep, length, ◌==◌, Eq, string_eq, Result, ok, err, ◌>>=◌, ◌>>◌, reject_if,
  if◌then◌else◌,
}
use probabilistic_ai_inciden.Base.Membership.{is_subset, to_set}
use probabilistic_ai_inciden.Base.Sort.{sorted, sort_by, text_le}
use probabilistic_ai_inciden.Base.Discrete.{discrete_eq}
use probabilistic_ai_inciden.Investigation.Comparison.{report_eq}
use probabilistic_ai_inciden.Investigation.Report.{ReportStatus, concluded, abstained}
use probabilistic_ai_inciden.Investigation.Proposal.{
  Floats, EvidenceDirection, support, contradict, same_direction, EvidenceAssessment,
  HypothesisProposal, InvestigationProposal, DecisionPolicy, ComputedHypothesis, ScoredReport,
}

-- One constructor for each message of a `ProposalValidationError`, for an index out of range, and
-- for the bounds of the report's model.
pub data ScoreError : Type 0 where
  unobserved_evidence ratio_outside needs_unknown needs_next_check : ScoreError
  index_error invalid_report not_reconstructed : ScoreError

module _ (F : Floats) where
  abbrev pub evidence_ids : List (EvidenceAssessment F) → List String
  evidence_ids = map (λ (a : EvidenceAssessment F). a.evidence_record_id)

  -- `referenced`
  abbrev pub referenced : List (HypothesisProposal F) → List String
  referenced [] = []
  referenced (h ∷ rest) = evidence_ids h.evidence ++ referenced rest

  -- The bounds on a likelihood ratio.
  abbrev pub in_bounds : DecisionPolicy F → EvidenceAssessment F → Bool
  in_bounds policy a =
      F.le policy.likelihood_ratio_min a.likelihood_ratio
      && F.le a.likelihood_ratio policy.likelihood_ratio_max

  -- The inner loop over the evidence.
  unfoldable pub add_evidence :
      DecisionPolicy F → F.Float → List (EvidenceAssessment F) → Result ScoreError F.Float
  add_evidence policy score [] = ok score
  add_evidence policy score (a ∷ rest) = do
    reject_if (not (in_bounds policy a)) ratio_outside
    add_evidence policy (F.add score (F.log a.likelihood_ratio)) rest

  -- `log_scores`
  unfoldable pub log_scores :
      DecisionPolicy F → List (HypothesisProposal F) → Result ScoreError (List F.Float)
  log_scores policy [] = ok []
  log_scores policy (h ∷ rest) = do
    score ← add_evidence policy (F.log h.prior_probability) h.evidence
    scores ← log_scores policy rest
    ok (score ∷ scores)

  -- `max(a, b)` and `min(a, b)`
  abbrev pub max_of : F.Float → F.Float → F.Float
  max_of a b = if F.lt a b then b else a

  abbrev pub min_of : F.Float → F.Float → F.Float
  min_of a b = if F.lt b a then b else a

  -- `max(scores)`, which is no matter for an empty list
  abbrev pub maximum : List F.Float → F.Float
  maximum [] = F.zero
  maximum (x ∷ xs) = from x xs
    where
      from : F.Float → List F.Float → F.Float
      from m [] = m
      from m (y ∷ ys) = from (max_of m y) ys

  -- `posteriors`
  unfoldable pub posteriors : List F.Float → List F.Float
  posteriors scores =
      let weights = map (λ v. F.exp (F.sub v (maximum scores))) scores in
      map (λ v. F.div v (F.sum weights)) weights

  abbrev pub ids_in : EvidenceDirection → List (EvidenceAssessment F) → List String
  ids_in direction evidence = sorted (
      evidence_ids
        (keep (λ (a : EvidenceAssessment F). same_direction a.direction direction) evidence))

  abbrev pub computed_hypothesis : HypothesisProposal F → F.Float → F.Float → ComputedHypothesis F
  computed_hypothesis h log_score posterior = record {
    hypothesis_id = h.hypothesis_id;
    title = h.title;
    prior_probability = h.prior_probability;
    posterior_probability = posterior;
    log_evidence_score = log_score;
    rationale = h.rationale;
    supporting_evidence_ids = ids_in support h.evidence;
    contradicting_evidence_ids = ids_in contradict h.evidence;
    falsifiers = h.falsifiers;
  }

  -- `computed`, before it is sorted; the three lists have one length
  unfoldable pub compute :
      List (HypothesisProposal F) → List F.Float → List F.Float → List (ComputedHypothesis F)
  compute (h ∷ hs) (s ∷ ss) (p ∷ ps) = computed_hypothesis h s p ∷ compute hs ss ps
  compute _ _ _ = []

  -- `<` on the keys `(-item.posterior_probability, item.hypothesis_id)`
  abbrev pub key_less : ComputedHypothesis F → ComputedHypothesis F → Bool
  key_less a b =
      if F.eq (F.neg a.posterior_probability) (F.neg b.posterior_probability)
      then not (text_le b.hypothesis_id a.hypothesis_id)
      else F.lt (F.neg a.posterior_probability) (F.neg b.posterior_probability)

  -- The sort is stable: an item stays before a later one whose key is not less.
  abbrev pub ranks_before : ComputedHypothesis F → ComputedHypothesis F → Bool
  ranks_before a b = not (key_less b a)

  abbrev pub entropy_terms : List (ComputedHypothesis F) → List F.Float
  entropy_terms computed =
      map
        (λ (item : ComputedHypothesis F).
          F.mul item.posterior_probability (F.log item.posterior_probability))
        (keep (λ (item : ComputedHypothesis F). F.lt F.zero item.posterior_probability) computed)

  -- `entropy`
  unfoldable pub entropy_of : List (ComputedHypothesis F) → F.Float
  entropy_of computed =
      if leb (length computed) 1
      then F.zero
      else F.div (F.neg (F.sum (entropy_terms computed))) (F.log (F.of_int (length computed)))

  abbrev pub margin_of : ComputedHypothesis F → ComputedHypothesis F → F.Float
  margin_of top second = F.sub top.posterior_probability second.posterior_probability

  -- `concluded`
  unfoldable pub is_concluded :
      DecisionPolicy F → ComputedHypothesis F → ComputedHypothesis F → F.Float → Bool
  is_concluded policy top second entropy =
      F.le policy.minimum_top_posterior top.posterior_probability
      && F.le policy.minimum_margin (margin_of top second)
      && leb policy.minimum_distinct_evidence
          (length (to_set (top.supporting_evidence_ids ++ top.contradicting_evidence_ids)))
      && F.le entropy policy.maximum_normalized_entropy

  abbrev pub is_missing {ℓ} : {A : Type ℓ} → List A → Bool
  is_missing [] = true
  is_missing (x ∷ xs) = false

  -- The bounds of the report's model.
  abbrev pub in_unit : F.Float → Bool
  in_unit x = F.le F.zero x && F.le x F.one

  abbrev pub confidence_of : ComputedHypothesis F → F.Float → F.Float
  confidence_of top entropy =
      max_of F.zero (min_of F.one (F.mul top.posterior_probability (F.sub F.one entropy)))

  -- The end of `score_proposal`, from the sorted hypotheses.
  unfoldable pub conclude :
      InvestigationProposal F
      → DecisionPolicy F
      → List String
      → List (ComputedHypothesis F)
      → Result ScoreError (ScoredReport F)
  conclude proposal policy observed (top ∷ second ∷ rest) = do
    let entropy = entropy_of (top ∷ second ∷ rest)
    let done = is_concluded policy top second entropy
    reject_if (not done && is_missing proposal.explicit_unknowns) needs_unknown
    reject_if (not done && is_missing proposal.recommended_next_steps) needs_next_check
    let confidence = confidence_of top entropy
    reject_if (not (in_unit confidence && in_unit entropy && in_unit (margin_of top second)))
        invalid_report
    ok (record {
      status = if done then concluded else abstained;
      selected_hypothesis_id = if done then some top.hypothesis_id else none;
      confidence = confidence;
      normalized_entropy = entropy;
      posterior_margin = margin_of top second;
      hypotheses = top ∷ second ∷ rest;
      explicit_unknowns = proposal.explicit_unknowns;
      recommended_next_steps = proposal.recommended_next_steps;
      observed_evidence_record_ids = sorted observed;
      proposal = proposal;
    })
  conclude proposal policy observed _ = err index_error

  -- `score_proposal`, where `observed` lists the set of the observed evidence
  unfoldable pub score_proposal :
      InvestigationProposal F → DecisionPolicy F → List String → Result ScoreError (ScoredReport F)
  score_proposal proposal policy observed = do
    reject_if (not (is_subset (referenced proposal.hypotheses) observed)) unobserved_evidence
    scores ← log_scores policy proposal.hypotheses
    conclude proposal policy observed
        (sort_by ranks_before (compute proposal.hypotheses scores (posteriors scores)))

  -- `verify_report`
  unfoldable pub verify_report : ScoredReport F → DecisionPolicy F → Result ScoreError Unit
  verify_report report policy = do
    recomputed ← score_proposal report.proposal policy (to_set report.observed_evidence_record_ids)
    reject_if (not (report_eq F recomputed report)) not_reconstructed
