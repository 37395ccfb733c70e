-- ===== src/Tests/RulesFiles.antt =====
-- A rules file with two rules of one id, an entry that is no mapping and a rule without a text.
use analysis_engine_service.Prelude.{
  ◌≡◌, refl, inl, inr, String, true, none, some, List, [], ◌∷◌, ◌==◌, if◌then◌else◌,
}
use analysis_engine_service.Prelude.Raises.{ok}
use analysis_engine_service.Domain.AgentReview.{medium}
use analysis_engine_service.Domain.BusinessRule.{BusinessRule, RuleSource, active}
use analysis_engine_service.Rules.RulesFile.{
  Values, Entry, not_mapping, mapping, entries, build_rule, read_entry, read_entries,
  parse_rules_file,
}
use analysis_engine_service.Tests.Samples.{ascii}

abbrev rule : String → String → RuleSource → BusinessRule
rule id text from = record {
  rule_id = id;
  rule = text;
  applies_to = [];
  severity = medium;
  rationale = none;
  source = from;
  status = active;
  evidence = none;
}

-- Every value is a text, and a rule needs a text of its own.
abbrev texts : Values String
texts = record {
  to_text = λ v. v;
  is_true = λ v. true;
  construct = λ id text scope severity rationale from.
      if text == "" then inr "rule: too short" else inl (rule id text from);
}

-- A mapping with an id and a text.
abbrev entry : String → String → Entry String
entry id text =
    mapping (λ key. if key == "id" then some id else if key == "rule" then some text else none)

abbrev written : List (Entry String)
written = entry "BR-1" "one" ∷ entry "BR-1" "two" ∷ not_mapping ∷ entry " BR-2 " "" ∷ []

parse_written :
    parse_rules_file ascii texts (entries written)
    ≡ ok (
      rule "BR-1" "one" RuleSource.repository_file ∷ [],
      "rule #2: duplicate id BR-1" ∷ "rule #3: not a mapping" ∷ "rule #4 ( BR-2 ): rule: too short"
          ∷ [],
    )
unfolding parse_rules_file read_entries read_entry build_rule
parse_written = refl
