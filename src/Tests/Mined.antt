-- ===== src/Tests/Mined.antt =====
-- Two suggestions of a model, of which one repeats the id of the other.
use analysis_engine_service.Rules.Glob.{glob_match}
use analysis_engine_service.Agents.Reviewer.Quote.{is_quoted_at}
use analysis_engine_service.Agents.Reviewer.Location.{parse_location}
use analysis_engine_service.Prelude.{◌≡◌, refl, String, true, none, List, [], ◌∷◌}
use analysis_engine_service.Prelude.Raises.{ok}
use analysis_engine_service.Domain.AgentReview.{high}
use analysis_engine_service.Domain.BusinessRule.{BusinessRule}
use analysis_engine_service.Rules.Mining.{SuggestedRule, Discarded, validate, valid_globs}
use analysis_engine_service.Rules.Mining.Kept.{IsReadable, IsMined, validate-IsMined}
use analysis_engine_service.Agents.Reviewer.Evidence.{check_evidence}
use analysis_engine_service.Tests.Samples.{ascii, files, quoted}

abbrev suggestion : String → SuggestedRule
suggestion text = record {
  rule_id = "BR-1";
  rule = text;
  applies_to = "*.py" ∷ [];
  severity = high;
  rationale = "r";
  source = quoted;
}

abbrev suggestions : List SuggestedRule
suggestions = suggestion "first" ∷ suggestion "again" ∷ []

readable : (text : String) → IsReadable ascii files ("a.py" ∷ []) (suggestion text)
unfolding check_evidence parse_location is_quoted_at valid_globs glob_match
readable text = record {
  verdict = (none, true);
  checked = refl;
  globs = "*.py" ∷ [];
  cleaned = refl;
}

validate-IsMined_example :
    (r : List BusinessRule × List Discarded) × (validate ascii files ("a.py" ∷ []) [] suggestions
      ≡ ok r)
    × IsMined ascii files ("a.py" ∷ []) [] suggestions r
validate-IsMined_example =
    validate-IsMined ascii files ("a.py" ∷ []) [] suggestions
      (readable "first", (readable "again", tt))
