-- ===== src/Domain/BusinessRule.antt =====
-- The data of domain/business_rule.py.
use analysis_engine_service.Prelude.{String, Option, List}
use analysis_engine_service.Domain.AgentReview.{Severity}

pub data RuleSource : Type 0 where
  repository_file dashboard suggested : RuleSource

pub data RuleStatus : Type 0 where
  active suggested rejected : RuleStatus

pub record BusinessRule : Type 0 where
  pub rule_id : String
  pub rule : String
  pub applies_to : List String
  pub severity : Severity
  pub rationale : Option String
  pub source : RuleSource
  pub status : RuleStatus
  pub evidence : Option String
