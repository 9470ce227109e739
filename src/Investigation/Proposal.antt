-- ===== src/Investigation/Proposal.antt =====
-- The models of a proposal and of its scored report, src/paic/investigation/models.py and the
-- policy of config.py, over the arithmetic on doubles, which is a parameter.
use probabilistic_ai_inciden.Base.{ℕ, String, Bool, true, false, Option, List}
use probabilistic_ai_inciden.Investigation.Report.{ReportStatus}

-- Python's floats and `math`; `sum` is that of a list.
pub record Floats : Type 1 where
  pub Float : Type 0
  pub zero : Float
  pub one : Float
  pub of_int : ℕ → Float
  pub log : Float → Float
  pub exp : Float → Float
  pub add : Float → Float → Float
  pub sub : Float → Float → Float
  pub mul : Float → Float → Float
  pub div : Float → Float → Float
  pub neg : Float → Float
  pub sum : List Float → Float
  pub lt : Float → Float → Bool
  pub le : Float → Float → Bool
  pub eq : Float → Float → Bool

pub data EvidenceDirection : Type 0 where
  support contradict : EvidenceDirection

-- `item.direction == direction`
abbrev pub same_direction : EvidenceDirection → EvidenceDirection → Bool
same_direction support support = true
same_direction contradict contradict = true
same_direction _ _ = false

module _ (F : Floats) where
  pub record EvidenceAssessment : Type 0 where
    pub evidence_record_id : String
    pub direction : EvidenceDirection
    pub likelihood_ratio : F.Float
    pub explanation : String

  pub record HypothesisProposal : Type 0 where
    pub hypothesis_id : String
    pub title : String
    pub prior_probability : F.Float
    pub rationale : String
    pub evidence : List EvidenceAssessment
    pub falsifiers : List String

  pub record InvestigationProposal : Type 0 where
    pub summary : String
    pub hypotheses : List HypothesisProposal
    pub explicit_unknowns : List String
    pub recommended_next_steps : List String

  pub record DecisionPolicy : Type 0 where
    pub minimum_top_posterior : F.Float
    pub minimum_margin : F.Float
    pub minimum_distinct_evidence : ℕ
    pub maximum_normalized_entropy : F.Float
    pub likelihood_ratio_min : F.Float
    pub likelihood_ratio_max : F.Float

  pub record ComputedHypothesis : Type 0 where
    pub hypothesis_id : String
    pub title : String
    pub prior_probability : F.Float
    pub posterior_probability : F.Float
    pub log_evidence_score : F.Float
    pub rationale : String
    pub supporting_evidence_ids : List String
    pub contradicting_evidence_ids : List String
    pub falsifiers : List String

  -- The parts of the report that the score decides.
  pub record ScoredReport : Type 0 where
    pub status : ReportStatus
    pub selected_hypothesis_id : Option String
    pub confidence : F.Float
    pub normalized_entropy : F.Float
    pub posterior_margin : F.Float
    pub hypotheses : List ComputedHypothesis
    pub explicit_unknowns : List String
    pub recommended_next_steps : List String
    pub observed_evidence_record_ids : List String
    pub proposal : InvestigationProposal
