-- ===== src/Rules/RuleSet.antt =====
-- rules/rule_set.py: the business rules in force for one review.
pub mod Precedence
use analysis_engine_service.Prelude.{
  String, Bool, true, false, not, Option, none, some, List, [], ◌∷◌, ◌++◌, ◌==◌, any, filter, find?,
  is_some,
}
use analysis_engine_service.Prelude.Text.{Unicode, strip, strip_by, is_bracket}
use analysis_engine_service.Domain.BusinessRule.{BusinessRule}
use analysis_engine_service.Domain.ChangeSet.{ChangeSet, file, deleted}
use analysis_engine_service.Rules.Glob.{glob_match}

pub record RuleSet : Type 0 where
  pub rules : List BusinessRule
  pub errors : List String
  pub modified_by_pr : Bool

-- `BusinessRule.applies_to_path`
unfoldable pub applies_to_path : BusinessRule → String → Bool
unfolding glob_match
applies_to_path rule path = elim rule.applies_to [
  | [] ↦ true
  | p ∷ ps ↦ any (glob_match path) (p ∷ ps)
]

-- `rule_id.strip().strip("[]").strip()`
unfoldable pub bare_id : Unicode → String → String
bare_id U s = strip U (strip_by is_bracket (strip U s))

-- `RuleSet.get`
unfoldable pub get_rule : Unicode → RuleSet → String → Option BusinessRule
unfolding bare_id
get_rule U set rule_id = find? (λ r. r.rule_id == bare_id U rule_id) set.rules

-- `RuleSet.applicable`
unfoldable pub applicable : RuleSet → ChangeSet → List BusinessRule
unfolding applies_to_path
applicable set change_set =
    let live = filter (λ f. elim f.status [ deleted ↦ false | _ ↦ true ]) change_set.files in
    filter (λ r. any (λ f. applies_to_path r f.path) live) set.rules

abbrev pub rules_files : List String
rules_files = ".codepulse/rules.yml" ∷ ".codepulse/rules.yaml" ∷ []

-- The stored rules whose ids the rules file does not use.
abbrev pub unknown_to : List BusinessRule → List BusinessRule → List BusinessRule
unknown_to known stored = filter (λ r. not (any (λ k. k.rule_id == r.rule_id) known)) stored

-- `load_rules`: `parsed` is what the rules file of the target branch gives, none if there is no
-- such file; `stored` is what the store answers, none if there is no store or it fails.
unfoldable pub load_rules :
    ChangeSet → Option (List BusinessRule × List String) → Option (List BusinessRule) → RuleSet
unfolding file
load_rules change_set parsed stored =
    let from_file : List BusinessRule × List String = elim parsed [
      | none ↦ ([], [])
      | some p ↦ p
    ] in
    record {
      rules = elim stored [ none ↦ from_file.0 | some s ↦ from_file.0 ++ unknown_to from_file.0 s ];
      errors = from_file.1;
      modified_by_pr = any (λ name. is_some (file change_set name)) rules_files;
    }
