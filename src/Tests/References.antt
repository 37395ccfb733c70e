-- ===== src/Tests/References.antt =====
-- References to places, rules and findings.
use Prim.Native.String.{◌++◌}
use analysis_engine_service.Prelude.{◌≡◌, refl, ◌↔◌, String, true, none, some, List, [], ◌∷◌}
use analysis_engine_service.Prelude.Raises.{ok, value_error}
use analysis_engine_service.Domain.Finding.{Finding}
use analysis_engine_service.Domain.AgentReview.{high}
use analysis_engine_service.Domain.BusinessRule.{BusinessRule, dashboard}
use analysis_engine_service.Rules.RuleSet.{bare_id, get_rule, load_rules}
use analysis_engine_service.Rules.RuleSet.Precedence.{rule_of, or_rule, get_rule-load_rules}
use analysis_engine_service.Rules.Glob.{is_dot, glob_match}
use analysis_engine_service.Rules.Glob.Laws.{AllChars}
use analysis_engine_service.Rules.Glob.Patterns.{glob_match-plain, glob_match-subtree}
use analysis_engine_service.Retrieval.Refs.{resolve_finding_ref}
use analysis_engine_service.Agents.Reviewer.Location.{Location, parse_location}
use analysis_engine_service.Agents.Reviewer.Location.Laws.{IsProper, parse_location-IsProper}
use analysis_engine_service.Tests.Samples.{rule, change_set, ascii, latin, linter_finding}

matched : glob_match "src/a.py" "**/*.py" ≡ true
unfolding glob_match
matched = refl

glob_match-plain_example : (glob_match "b.py" "a.py" ≡ true) ↔ (◌≡◌ {A = String} "b.py" "a.py")
glob_match-plain_example =
    glob_match-plain "b.py" "a.py"
      ((refl, refl), ((refl, refl), ((refl, refl), ((refl, refl), tt))))

glob_match-subtree_example :
    (glob_match "src/x/a.py" ("src" ++ "/**") ≡ true)
    ↔ ((rest : String) × ("src/x/a.py" ≡ "src" ++ ("/" ++ rest)) × AllChars is_dot rest)
glob_match-subtree_example =
    glob_match-subtree "src/x/a.py" "src" ((refl, refl), ((refl, refl), ((refl, refl), tt)))

abbrev place : Location
place = record { path = "a.py"; start = 3; end = 5 }

place_read : parse_location ascii " a.py:3-5 " ≡ ok (some place)
unfolding parse_location
place_read = refl

parse_location-IsProper_example : IsProper place
parse_location-IsProper_example = parse_location-IsProper ascii " a.py:3-5 " place place_read

-- Digits that are not decimal make `int` raise.
raised : parse_location latin "a.py:²" ≡ value_error
unfolding parse_location
raised = refl

abbrev findings : List Finding
findings = linter_finding "0123456789ab" none ∷ linter_finding "0123456789cd" none ∷ []

resolved :
    resolve_finding_ref ascii "[0123456789c]" findings ≡ some (linter_finding "0123456789cd" none)
unfolding resolve_finding_ref
resolved = refl

abbrev stored : List BusinessRule
stored = record rule { severity = high; source = dashboard } ∷ []

-- The file's severity wins.
get_rule-load_rules_example :
    get_rule ascii (load_rules change_set (some (rule ∷ [], [])) (some stored)) "[BR-1]"
    ≡ or_rule
        (rule_of (bare_id ascii "[BR-1]") (rule ∷ []))
        (rule_of (bare_id ascii "[BR-1]") stored)
get_rule-load_rules_example =
    get_rule-load_rules ascii change_set (some (rule ∷ [], [])) (some stored) "[BR-1]"
