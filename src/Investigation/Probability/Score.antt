-- ===== src/Investigation/Probability/Score.antt =====
-- What `score_proposal` of probability.py accepts, and what its report says.
use probabilistic_ai_inciden.Base.{
  ◌≡◌, refl, ap, sym, ◌∙◌, subst, String, true, not, List, [], ◌∷◌, All, not-false, ok,
  ok-injective, >>=-eq-ok, reject_if-eq-ok, reject_if-false, string_eq,
}
use probabilistic_ai_inciden.Base.Membership.{Subset, is_subset, is_subset→Subset, Subset→is_subset}
use probabilistic_ai_inciden.Base.Sort.{sort_by}
use probabilistic_ai_inciden.Investigation.Proposal.{
  Floats, EvidenceAssessment, HypothesisProposal, InvestigationProposal, DecisionPolicy,
  ScoredReport,
}
use probabilistic_ai_inciden.Investigation.Probability.{
  unobserved_evidence, ratio_outside, referenced, in_bounds, add_evidence, log_scores, posteriors,
  compute, ranks_before, conclude, score_proposal,
}
use probabilistic_ai_inciden.Investigation.Probability.Conclude.{
  Concludes, conclude-Concludes, Concludes-conclude,
}
use probabilistic_ai_inciden.Investigation.Probability.Ranking.{
  plain_score, plain_scores, posteriors-shares, ranking, AllBounded,
}

module _ (F : Floats) where
  module _ (policy : DecisionPolicy F) where
    add_evidence_sound :
        (score : F.Float) (es : List (EvidenceAssessment F)) (out : F.Float)
        → add_evidence F policy score es ≡ ok out
        → (out ≡ plain_score F score es) × All (λ a. in_bounds F policy a ≡ true) es
    unfolding add_evidence
    add_evidence_sound score [] out h = (sym (ok-injective h), tt)
    add_evidence_sound score (a ∷ rest) out h =
        let (inside, h1) = reject_if-eq-ok (not (in_bounds F policy a)) ratio_outside _ h in
        let (same, all) = add_evidence_sound (F.add score (F.log a.likelihood_ratio)) rest out h1 in
        (same, (not-false _ inside, all))

    add_evidence_complete :
        (score : F.Float) (es : List (EvidenceAssessment F))
        → All (λ a. in_bounds F policy a ≡ true) es
        → add_evidence F policy score es ≡ ok (plain_score F score es)
    unfolding add_evidence
    add_evidence_complete score [] h = refl
    add_evidence_complete score (a ∷ rest) h =
        reject_if-false _ _ _ (ap not h.0)
          (add_evidence_complete (F.add score (F.log a.likelihood_ratio)) rest h.1)

    log_scores_sound :
        (hs : List (HypothesisProposal F)) (out : List F.Float)
        → log_scores F policy hs ≡ ok out
        → (out ≡ plain_scores F hs) × AllBounded F policy hs
    unfolding log_scores
    log_scores_sound [] out h = (sym (ok-injective h), tt)
    log_scores_sound (p ∷ hs) out h =
        let (score, one, h1) =
          >>=-eq-ok (add_evidence F policy (F.log p.prior_probability) p.evidence) _ h in
        let (scores, rest, h2) = >>=-eq-ok (log_scores F policy hs) _ h1 in
        let (same, bounded) = add_evidence_sound (F.log p.prior_probability) p.evidence score one in
        let (others, all) = log_scores_sound hs scores rest in
        (sym (ok-injective h2) ∙ (λ i. same i ∷ others i), (bounded, all))

    log_scores_complete :
        (hs : List (HypothesisProposal F))
        → AllBounded F policy hs
        → log_scores F policy hs ≡ ok (plain_scores F hs)
    unfolding log_scores
    log_scores_complete [] h = refl
    log_scores_complete (p ∷ hs) h =
        rw (add_evidence_complete (F.log p.prior_probability) p.evidence h.0)
          (rw (log_scores_complete hs h.1) refl)

  module _ (proposal : InvestigationProposal F) (policy : DecisionPolicy F) (observed : List String)
      (report : ScoredReport F) where
    pub score_proposal_sound :
        score_proposal F proposal policy observed ≡ ok report
        → Subset (referenced F proposal.hypotheses) observed
          × AllBounded F policy proposal.hypotheses
          × Concludes F proposal policy observed (ranking F proposal.hypotheses) report
    unfolding score_proposal
    score_proposal_sound h =
        let (cited, h1) =
          reject_if-eq-ok (not (is_subset (referenced F proposal.hypotheses) observed))
            unobserved_evidence _ h in
        let (scores, made, h2) = >>=-eq-ok (log_scores F policy proposal.hypotheses) _ h1 in
        let (same, bounded) = log_scores_sound policy proposal.hypotheses scores made in
        let ranked =
          subst
            (λ s.
              conclude F proposal policy observed
                (sort_by (ranks_before F) (compute F proposal.hypotheses s (posteriors F s)))
              ≡ ok report)
            same h2 in
        let shared =
          subst
            (λ ps.
              conclude F proposal policy observed (
                sort_by (ranks_before F)
                  (compute F proposal.hypotheses (plain_scores F proposal.hypotheses) ps))
              ≡ ok report)
            (posteriors-shares F (plain_scores F proposal.hypotheses)) ranked in
        (
          is_subset→Subset _ _ (not-false _ cited),
          bounded,
          conclude-Concludes F proposal policy observed (ranking F proposal.hypotheses) report
              shared,
        )

    pub score_proposal_complete :
        Subset (referenced F proposal.hypotheses) observed
        → AllBounded F policy proposal.hypotheses
        → Concludes F proposal policy observed (ranking F proposal.hypotheses) report
        → score_proposal F proposal policy observed ≡ ok report
    unfolding score_proposal
    score_proposal_complete cited bounded done =
        reject_if-false _ _ _ (ap not (Subset→is_subset _ _ cited)) (
          rw
            (
              log_scores_complete policy proposal.hypotheses bounded,
              posteriors-shares F (plain_scores F proposal.hypotheses),
            )
            (Concludes-conclude F proposal policy observed (ranking F proposal.hypotheses) report
              done))
