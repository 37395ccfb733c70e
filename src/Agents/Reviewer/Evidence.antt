-- ===== src/Agents/Reviewer/Evidence.antt =====
-- `check_evidence` of agents/reviewer/validation.py: one piece of evidence against the repository.
pub mod Standing
use Prim.Native.String.{String}
use analysis_engine_service.Prelude.{
  Bool, true, false, not, Option, none, some, List, if◌then◌else◌, ltb, length, is_some, is_none,
  ◌==◌,
}
use analysis_engine_service.Prelude.Text.{Unicode, strip, is_char}
use analysis_engine_service.Prelude.Raises.{Raises, ok, ◌>>=◌}
use analysis_engine_service.Domain.Finding.{Finding}
use analysis_engine_service.Domain.AgentReview.{
  code_location, linter_finding, business_rule, call_path, test, DropReason, no_such_rule,
  no_such_finding, unreadable_location, no_such_location, quote_not_at, test_file_missing,
}
use analysis_engine_service.Rules.RuleSet.{RuleSet, get_rule}
use analysis_engine_service.Retrieval.Refs.{resolve_finding_ref}
use analysis_engine_service.Agents.Reviewer.Schema.{Evidence}
use analysis_engine_service.Agents.Reviewer.Location.{Location, parse_location}
use analysis_engine_service.Agents.Reviewer.Quote.{window, is_quoted_at}

-- `ref.split("::", 1)[0]`
abbrev pub before_colons : String → String
before_colons String.[] = ""
before_colons (String.◌∷◌ c String.[]) = String.◌∷◌ c ""
before_colons (String.◌∷◌ c (String.◌∷◌ d s)) =
    let rest = before_colons (String.◌∷◌ d s) in
    if is_char b':' c then (if is_char b':' d then "" else String.◌∷◌ c rest) else String.◌∷◌ c rest

-- A problem, if there is one, and whether the piece was verified.
abbrev pub Verdict : Type 0
Verdict = Option DropReason × Bool

-- What the checks look at: `files` gives the lines of a file of the workspace.
module _ (U : Unicode) (files : String → Option (List String)) (findings : List Finding)
    (rules : Option RuleSet) where
  -- `rules is None or rules.get(ref) is None`, negated
  abbrev pub has_rule : String → Bool
  has_rule ref = elim rules [ none ↦ false | some set ↦ is_some (get_rule U set ref) ]

  -- The quote is None or blank: a location with nothing to check.
  abbrev pub is_blank_quote : Option String → Bool
  is_blank_quote none = true
  is_blank_quote (some q) = strip U q == ""

  abbrev pub quote_text : Option String → String
  quote_text none = ""
  quote_text (some q) = q

  unfoldable pub check_quote : Evidence → Location → List String → Verdict
  check_quote item l lines =
      if ltb (length lines) l.start
      then (some (no_such_location item.ref), false)
      else if is_blank_quote item.quote
      then (none, false)
      else if not (is_quoted_at U (quote_text item.quote) (window lines l.start l.end))
      then (some (quote_not_at item.ref), false)
      else (none, true)

  unfoldable pub check_location : Evidence → Option Location → Verdict
  unfolding check_quote
  check_location item none = (some (unreadable_location item.ref), false)
  check_location item (some l) = elim (files l.path) [
    | none ↦ (some (no_such_location item.ref), false)
    | some lines ↦ check_quote item l lines
  ]

  unfoldable pub check_evidence : Evidence → Raises Verdict
  unfolding check_location
  check_evidence item = elim item.type [
    | business_rule ↦
        ok (if has_rule item.ref then (none, true) else (some (no_such_rule item.ref), false))
    | linter_finding ↦ ok (
        if is_none (resolve_finding_ref U item.ref findings)
        then (some (no_such_finding item.ref), false)
        else (none, true))
    | code_location ↦ do location ← parse_location U item.ref; ok (check_location item location)
    | test ↦ ok (
        if is_none (files (before_colons item.ref))
        then (some (test_file_missing (before_colons item.ref)), false)
        else (none, true))
    | call_path ↦ ok (none, false)
  ]
