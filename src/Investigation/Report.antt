-- ===== src/Investigation/Report.antt =====
-- The parts of an investigation report that remediation reads (src/paic/investigation/models.py).
use probabilistic_ai_inciden.Base.{ℕ, String, Option, List}

-- A non-negative finite double, as a multiple of 2^-1074: the representation is exact, and `<` on
-- the doubles is `<` on the multiples.
abbrev pub Double : Type 0
Double = ℕ

pub data ReportStatus : Type 0 where
  concluded abstained failed : ReportStatus

pub record ComputedHypothesis : Type 0 where
  pub hypothesis_id : String
  pub prior_probability : Double
  pub posterior_probability : Double
  pub supporting_evidence_ids : List String
  pub contradicting_evidence_ids : List String

pub record InvestigationReport : Type 0 where
  pub incident_id : String
  pub status : ReportStatus
  pub selected_hypothesis_id : Option String
  pub confidence : Double
  pub normalized_entropy : Double
  pub posterior_margin : Double
  pub hypotheses : List ComputedHypothesis
  pub observed_evidence_record_ids : List String
  pub source_manifest_hashes : List (String × String)
  pub report_sha256 : String
