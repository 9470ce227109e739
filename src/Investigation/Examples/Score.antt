-- ===== src/Investigation/Examples/Score.antt =====
-- Examples of the theorems about src/paic/investigation/probability.py.
use Prim.Native.Nat.{◌-◌}
use probabilistic_ai_inciden.Base.{
  ◌≡◌, refl, ℕ, ◌+◌, String, some, List, [], ◌∷◌, ltb, leb, nat_beq, string_eq, ok, err,
}
use probabilistic_ai_inciden.Base.Membership.{to_set-Distinct}
use probabilistic_ai_inciden.Base.Sort.{sorted, sort_by, insort}
use probabilistic_ai_inciden.Investigation.Report.{concluded}
use probabilistic_ai_inciden.Investigation.Proposal.{
  Floats, support, EvidenceAssessment, HypothesisProposal, InvestigationProposal, DecisionPolicy,
  ComputedHypothesis, ScoredReport,
}
use probabilistic_ai_inciden.Investigation.Probability.{
  needs_unknown, unobserved_evidence, add_evidence, log_scores, posteriors, compute, entropy_of,
  is_concluded, conclude, score_proposal, verify_report,
}
use probabilistic_ai_inciden.Investigation.Comparison.{AllNumbers, Agrees}
use probabilistic_ai_inciden.Investigation.Probability.Verify.{score_proposal-verify_report}

-- Hundredths, with a scale of scores in place of logarithms.
abbrev hundredths : Floats
hundredths = record {
  Float = ℕ;
  zero = 0;
  one = 100;
  of_int = λ n. n;
  log = λ x. x;
  exp = λ x. x;
  add = λ x y. x + y;
  sub = λ x y. x;
  mul = λ x y. x;
  div = λ x y. x;
  neg = λ x. 100 - x;
  sum = λ xs. 0;
  lt = ltb;
  le = leb;
  eq = nat_beq;
}

abbrev observation : String → ℕ → EvidenceAssessment hundredths
observation id ratio = record {
  evidence_record_id = id;
  direction = support;
  likelihood_ratio = ratio;
  explanation = "e";
}

abbrev cause : String → ℕ → List (EvidenceAssessment hundredths) → HypothesisProposal hundredths
cause id prior evidence = record {
  hypothesis_id = id;
  title = id;
  prior_probability = prior;
  rationale = "r";
  evidence = evidence;
  falsifiers = "f" ∷ [];
}

abbrev sample_proposal : InvestigationProposal hundredths
sample_proposal = record {
  summary = "s";
  hypotheses =
      cause "h-1" 40 (observation "ev-1" 10 ∷ [])
      ∷ cause "h-2" 60 (observation "ev-2" 20 ∷ [])
      ∷ [];
  explicit_unknowns = [];
  recommended_next_steps = [];
}

abbrev lenient : DecisionPolicy hundredths
lenient = record {
  minimum_top_posterior = 0;
  minimum_margin = 0;
  minimum_distinct_evidence = 1;
  maximum_normalized_entropy = 100;
  likelihood_ratio_min = 5;
  likelihood_ratio_max = 20;
}

abbrev evidence : List String
evidence = "ev-2" ∷ "ev-1" ∷ []

abbrev strict : DecisionPolicy hundredths
strict = record lenient { minimum_distinct_evidence = 2 }

-- A conclusion by one policy has too little evidence for the other, which then asks for an unknown.
sample_scores :
    (score_proposal hundredths sample_proposal strict evidence ≡ err needs_unknown)
    × (score_proposal hundredths sample_proposal lenient ("ev-1" ∷ []) ≡ err unobserved_evidence)
unfolding score_proposal log_scores add_evidence posteriors compute conclude entropy_of is_concluded
    sorted sort_by insort
sample_scores = (refl, refl)

abbrev computed : String → ℕ → ℕ → ℕ → String → ComputedHypothesis hundredths
computed id prior posterior score ev = record {
  hypothesis_id = id;
  title = id;
  prior_probability = prior;
  posterior_probability = posterior;
  log_evidence_score = score;
  rationale = "r";
  supporting_evidence_ids = ev ∷ [];
  contradicting_evidence_ids = [];
  falsifiers = "f" ∷ [];
}

abbrev sample_report : ScoredReport hundredths
sample_report = record {
  status = concluded;
  selected_hypothesis_id = some "h-2";
  confidence = 80;
  normalized_entropy = 100;
  posterior_margin = 80;
  hypotheses = computed "h-2" 60 80 80 "ev-2" ∷ computed "h-1" 40 50 50 "ev-1" ∷ [];
  explicit_unknowns = [];
  recommended_next_steps = [];
  observed_evidence_record_ids = "ev-1" ∷ "ev-2" ∷ [];
  proposal = sample_proposal;
}

sample_scored : score_proposal hundredths sample_proposal lenient evidence ≡ ok sample_report
unfolding score_proposal log_scores add_evidence posteriors compute conclude entropy_of is_concluded
    sorted sort_by insort
sample_scored = refl

sample_numbers : AllNumbers hundredths sample_report
sample_numbers = record {
  confidence = refl;
  entropy = refl;
  margin = refl;
  computed = ((refl, refl, refl), ((refl, refl, refl), tt));
  proposed = ((refl, (refl, tt)), ((refl, (refl, tt)), tt));
}

score_proposal-verify_report_example :
    (verify_report hundredths sample_report lenient ≡ ok tt)
    × ((given : ScoredReport hundredths)
        → given.proposal ≡ sample_report.proposal
        → given.observed_evidence_record_ids ≡ sample_report.observed_evidence_record_ids
        → verify_report hundredths given lenient ≡ ok tt
        → Agrees hundredths sample_report given)
score_proposal-verify_report_example =
    score_proposal-verify_report hundredths sample_proposal lenient evidence sample_report
      (to_set-Distinct evidence) sample_scored sample_numbers
