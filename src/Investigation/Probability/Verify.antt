-- ===== src/Investigation/Probability/Verify.antt =====
-- What `verify_report` of probability.py accepts.
use probabilistic_ai_inciden.Base.{
  subst, Bool-cases, inl, inr, >>=-eq-ok, ok-injective, ◌≡◌, refl, ap, sym, ◌∙◌, String, true, List,
  ok, string_eq, All-weaken,
}
use probabilistic_ai_inciden.Base.Membership.{In, Distinct, In-to_set, to_set, to_set_same}
use probabilistic_ai_inciden.Base.Sort.{sorted, sort_by, text_le, sort_by-In, Distinct-sort_by}
use probabilistic_ai_inciden.Base.TextOrder.{sorted_twice}
use probabilistic_ai_inciden.Investigation.Proposal.{
  Floats, InvestigationProposal, DecisionPolicy, ComputedHypothesis, ScoredReport,
}
use probabilistic_ai_inciden.Investigation.Comparison.{
  AllNumbers, Agrees, report_eq, report_eq_refl, report_eq-Agrees,
}
use probabilistic_ai_inciden.Investigation.Probability.{score_proposal, verify_report}
use probabilistic_ai_inciden.Investigation.Probability.Conclude.{Concludes}
use probabilistic_ai_inciden.Investigation.Probability.Ranking.{ranking}
use probabilistic_ai_inciden.Investigation.Probability.Score.{
  score_proposal_sound, score_proposal_complete,
}

-- The evidence of a report, as a set, is in the order of the report.
sorted-to_set :
    (observed : List String)
    → Distinct observed
    → sorted (to_set (sorted observed)) ≡ sorted observed
sorted-to_set observed d =
    ap sorted (to_set_same (sorted observed) (unfold sorted in Distinct-sort_by text_le observed d))
    ∙ sorted_twice observed

In-sorted_set :
    (observed : List String) (x : String) → In x observed → In x (to_set (sorted observed))
unfolding sorted
In-sorted_set observed x m =
    In-to_set (sort_by text_le observed) x (sort_by-In text_le x observed m)

module _ (F : Floats) where
  -- A score reads the evidence only as a set.
  Concludes-same_set :
      (proposal : InvestigationProposal F) (policy : DecisionPolicy F)
      (observed others : List String) (ranked : List (ComputedHypothesis F))
      (report : ScoredReport F)
      → sorted others ≡ sorted observed
      → Concludes F proposal policy observed ranked report
      → Concludes F proposal policy others ranked report
  Concludes-same_set proposal policy observed others ranked report same c = record {
    top = c.top;
    second = c.second;
    others = c.others;
    places = c.places;
    decided = c.decided;
    confidence = c.confidence;
    entropy = c.entropy;
    margin = c.margin;
    units = c.units;
    hypotheses = c.hypotheses;
    unknowns = c.unknowns;
    next_steps = c.next_steps;
    evidence = c.evidence ∙ sym same;
    scored = c.scored;
  }

  module _ (proposal : InvestigationProposal F) (policy : DecisionPolicy F) (observed : List String)
      (report : ScoredReport F) (distinct : Distinct observed)
      (scored : score_proposal F proposal policy observed ≡ ok report) where
    rescored :
        (given : ScoredReport F)
        → given.proposal ≡ report.proposal
        → given.observed_evidence_record_ids ≡ report.observed_evidence_record_ids
        → score_proposal F given.proposal policy (to_set given.observed_evidence_record_ids)
          ≡ ok report
    rescored given same_proposal same_evidence =
        let (cited, bounded, c) = score_proposal_sound F proposal policy observed report scored in
        let again = to_set (sorted observed) in
        (λ i.
          score_proposal F ((same_proposal ∙ c.scored) i) policy
            (to_set ((same_evidence ∙ c.evidence) i)))
        ∙ score_proposal_complete F proposal policy again report
            (All-weaken (In-sorted_set observed) _ cited) bounded
            (Concludes-same_set proposal policy observed again (ranking F proposal.hypotheses)
              report (sorted-to_set observed distinct) c)

    verified-Agrees :
        (given : ScoredReport F)
        → given.proposal ≡ report.proposal
        → given.observed_evidence_record_ids ≡ report.observed_evidence_record_ids
        → verify_report F given policy ≡ ok tt
        → Agrees F report given
    unfolding verify_report
    verified-Agrees given same_proposal same_evidence h =
        let (again, e, h1) =
          >>=-eq-ok
            (score_proposal F given.proposal policy (to_set given.observed_evidence_record_ids)) _
            h in
        let same = ok-injective (sym (rescored given same_proposal same_evidence) ∙ e) in
        elim (Bool-cases (report_eq F again given)) [
          | inl t ↦
              report_eq-Agrees F report given (subst (λ r. report_eq F r given ≡ true) (sym same) t)
          | inr f ↦ absurd (cc (rw f at h1))
        ]

    -- A report that `score_proposal` returned of evidence without duplicates: if none of its floats
    -- is NaN, it verifies with the policy; and a report with its proposal and its evidence that
    -- verifies agrees with it, in each text and, by `==`, in each float.
    pub score_proposal-verify_report :
        AllNumbers F report
        → (verify_report F report policy ≡ ok tt)
          × ((given : ScoredReport F)
              → given.proposal ≡ report.proposal
              → given.observed_evidence_record_ids ≡ report.observed_evidence_record_ids
              → verify_report F given policy ≡ ok tt
              → Agrees F report given)
    unfolding verify_report
    score_proposal-verify_report numbers =
        (rw (rescored report refl refl, report_eq_refl F report numbers) refl, verified-Agrees)
