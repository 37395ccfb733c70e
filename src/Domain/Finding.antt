-- ===== src/Domain/Finding.antt =====
-- domain/finding.py: the common shape of a tool's finding.
use analysis_engine_service.Prelude.{ℕ, String, Bool, Option, Dict}

pub data Severity : Type 0 where
  error warning info : Severity

pub data FindingCategory : Type 0 where
  bug vulnerability code_smell style complexity : FindingCategory
  cognitive_complexity maintainability unused_code : FindingCategory

-- A value of `metadata`: what the program writes and reads there is a flag, a number or a text.
pub data MetaValue : Type 0 where
  flag : Bool → MetaValue
  number : ℕ → MetaValue
  text : String → MetaValue

pub record Finding : Type 0 where
  pub finding_id : String
  pub repository : String
  pub pull_request_number : ℕ
  pub commit_sha : String
  pub file_path : String
  pub line : Option ℕ
  pub column : Option ℕ
  pub end_line : Option ℕ
  pub end_column : Option ℕ
  pub severity : Severity
  pub category : FindingCategory
  pub rule_id : String
  pub message : String
  pub tool : String
  pub fingerprint : String
  pub remediation_minutes : Option ℕ
  pub metadata : Dict MetaValue
