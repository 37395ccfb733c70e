-- ===== src/Domain/AgentReview.antt =====
-- domain/agent_review.py: the outcome of an AI review. Confidences and costs are values of `Float`.
use analysis_engine_service.Prelude.{ℕ, String, Bool, Option, List}

pub data ReviewStatus : Type 0 where
  pending running completed failed skipped : ReviewStatus

pub data ReviewSkipReason : Type 0 where
  disabled no_diff too_large no_changes : ReviewSkipReason

-- `Severity` and `RiskLevel` have the same three values.
pub data Severity : Type 0 where
  high medium low : Severity

pub data EvidenceType : Type 0 where
  code_location linter_finding business_rule call_path test : EvidenceType

pub record ReviewEvidence : Type 0 where
  pub type : EvidenceType
  pub ref : String
  pub quote : Option String
  pub verified : Bool

pub data Category : Type 0 where
  correctness security business_rule : Category

pub data Verification : Type 0 where
  unverified verified : Verification

pub record AgentFinding (Float : Type 0) : Type 0 where
  pub fingerprint : String
  pub title : String
  pub category : Category
  pub severity : Severity
  pub confidence : Float
  pub file_path : String
  pub line_start : ℕ
  pub line_end : ℕ
  pub explanation : String
  pub evidence : List ReviewEvidence
  pub suggested_fix : Option String
  pub rule_ids : List String
  pub verification : Verification

pub record TriagedLinterFinding : Type 0 where
  pub fingerprint : String
  pub tool : String
  pub rule_id : String
  pub file_path : String
  pub line : Option ℕ
  pub message : String
  pub importance : Severity
  pub reason : String

pub data RuleOutcome : Type 0 where
  violated satisfied not_applicable not_confirmed not_checked : RuleOutcome

pub record RuleCheck : Type 0 where
  pub rule_id : String
  pub rule : String
  pub severity : Severity
  pub outcome : RuleOutcome
  pub note : Option String

pub data Stage : Type 0 where
  evidence verifier feedback : Stage

-- The texts that say why a candidate was dropped, each with the values that it shows.
pub data DropReason : Type 0 where
  file_missing : String → DropReason
  line_past_end : ℕ → String → ℕ → DropReason
  no_such_rule no_such_finding unreadable_location : String → DropReason
  no_such_location quote_not_at test_file_missing : String → DropReason
  rule_not_cited nothing_verified marked_wrong : DropReason
  not_confirmed said : String → DropReason

pub record DroppedCandidate : Type 0 where
  pub title : String
  pub reason : DropReason
  pub stage : Stage

pub record DroppedTriage : Type 0 where
  pub ref : String
  pub reason : String

pub record ReviewStats (Float : Type 0) : Type 0 where
  pub model : String
  pub stop_reason : String
  pub rounds : ℕ
  pub tool_calls : ℕ
  pub context_tokens_estimate : ℕ
  pub input_tokens : ℕ
  pub cached_tokens : ℕ
  pub output_tokens : ℕ
  pub reasoning_tokens : ℕ
  pub cost_usd : Option Float
  pub duration_ms : ℕ
  pub candidates_proposed : ℕ
  pub candidates_dropped : ℕ
  pub candidates_refuted : ℕ
  pub findings_reported : ℕ
  pub verifier_calls : ℕ
  pub verifier_cost_usd : Option Float

pub record AgentReview (Float : Type 0) : Type 0 where
  pub repository : String
  pub pull_request_number : ℕ
  pub status : ReviewStatus
  pub skip_reason : Option ReviewSkipReason
  pub summary : Option String
  pub areas_touched : List String
  pub risk_level : Option Severity
  pub findings : List (AgentFinding Float)
  pub linter_triage : List TriagedLinterFinding
  pub dropped : List DroppedCandidate
  pub triage_dropped : List DroppedTriage
  pub rule_checks : List RuleCheck
  pub rule_errors : List String
  pub stats : Option (ReviewStats Float)
  pub error_message : Option String
