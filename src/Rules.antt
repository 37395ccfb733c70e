-- ===== src/Rules.antt =====
-- Business rules (rules/ and domain/business_rule.py).
pub mod Glob
pub mod RuleSet
pub mod Mining
pub mod RulesFile
