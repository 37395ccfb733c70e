-- ===== src/Agents/Reviewer/Schema.antt =====
-- agents/reviewer/schema.py: the arguments of the Reviewer's `submit_review` call.
use analysis_engine_service.Prelude.{ℕ, String, Option, List}
use analysis_engine_service.Domain.AgentReview.{EvidenceType, Category, Severity}

pub record Evidence : Type 0 where
  pub type : EvidenceType
  pub ref : String
  pub quote : Option String

pub record TriagedFinding : Type 0 where
  pub ref : String
  pub importance : Severity
  pub reason : String

pub record CandidateIssue (Float : Type 0) : Type 0 where
  pub title : String
  pub category : Category
  pub severity : Severity
  pub confidence : Float
  pub file_path : String
  pub line_start : ℕ
  pub line_end : ℕ
  pub explanation : String
  pub evidence : List Evidence
  pub suggested_fix : Option String

pub data CheckOutcome : Type 0 where
  violated satisfied not_applicable : CheckOutcome

pub record RuleCheckOut : Type 0 where
  pub rule_id : String
  pub outcome : CheckOutcome
  pub note : String

pub record ReviewerOutput (Float : Type 0) : Type 0 where
  pub summary : String
  pub areas_touched : List String
  pub linter_triage : List TriagedFinding
  pub candidates : List (CandidateIssue Float)
  pub rule_checks : List RuleCheckOut
