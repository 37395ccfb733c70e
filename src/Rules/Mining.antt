-- ===== src/Rules/Mining.antt =====
-- rules/mining.py: `_validate`, which keeps the rules that a model suggests if the repository bears
-- them out, with agents/rule_miner/schema.py and the path patterns of domain/business_rule.py.
pub mod Kept
use Prim.Native.String.{◌++◌ as str_append}
use analysis_engine_service.Prelude.{
  ℕ, String, Bool, true, false, not, ◌||◌, ◌&&◌, Option, none, some, is_some, List, [], ◌∷◌, ◌++◌,
  map, any, filter, ltb, ◌==◌, if◌then◌else◌,
}
use analysis_engine_service.Prelude.Text.{Unicode, strip, text_length, text_take, has_prefix}
use analysis_engine_service.Prelude.Raises.{Raises, ok, value_error, ◌>>=◌}
use analysis_engine_service.Domain.AgentReview.{Severity, DropReason}
use analysis_engine_service.Domain.BusinessRule.{BusinessRule, RuleSource, RuleStatus}
use analysis_engine_service.Diffing.DiffParser.Quoting.{text_after}
use analysis_engine_service.Diffing.GeneratedFiles.{cut_slash, is_one_of}
use analysis_engine_service.Rules.Glob.{glob_match}
use analysis_engine_service.Agents.Reviewer.Schema.{Evidence}
use analysis_engine_service.Agents.Reviewer.Evidence.{check_evidence}

pub record SuggestedRule : Type 0 where
  pub rule_id : String
  pub rule : String
  pub applies_to : List String
  pub severity : Severity
  pub rationale : String
  pub source : Evidence

-- Why a suggestion is discarded; the code writes these as texts.
pub data Discarded : Type 0 where
  id_used : String → Discarded
  not_verified : String → Option DropReason → Discarded
  matches_no_file : String → List String → Discarded

-- `pattern.split("/")`
abbrev pub split_slash : String → List String
split_slash s = let (first, rest) = cut_slash s in first ∷ rest

abbrev pub is_bad_pattern : String → Bool
is_bad_pattern p = ltb 200 (text_length p) || (has_prefix p "/" || is_one_of (split_slash p) "..")

-- `p.removeprefix("./")`
abbrev pub remove_dot : String → String
remove_dot p = elim (text_after "./" p) [ none ↦ p | some rest ↦ rest ]

abbrev pub is_empty : List String → Bool
is_empty [] = true
is_empty (s ∷ ss) = false

-- `f"{source.ref}: {source.quote}" if source.quote else source.ref`, cut
abbrev pub evidence_text : Evidence → String
evidence_text source = text_take 700 (elim source.quote [
  | none ↦ source.ref
  | some q ↦ if q == "" then source.ref else str_append source.ref (str_append ": " q)
])

module _ (U : Unicode) (files : String → Option (List String)) (paths : List String) where
  -- `BusinessRule._valid_globs`
  unfoldable pub valid_globs : List String → Raises (List String)
  valid_globs patterns =
      let cleaned =
        map (λ p. remove_dot (strip U p)) (filter (λ p. not (strip U p == "")) patterns) in
      if any is_bad_pattern cleaned then value_error else ok cleaned

  -- `[g for g in suggestion.applies_to if any(glob_match(p, g) for p in paths)]`
  abbrev pub scope_of : SuggestedRule → List String
  scope_of s = filter (λ g. any (λ p. glob_match p g) paths) s.applies_to

  abbrev pub rule_of : SuggestedRule → List String → BusinessRule
  rule_of s globs = record {
    rule_id = s.rule_id;
    rule = s.rule;
    applies_to = globs;
    severity = s.severity;
    rationale = some s.rationale;
    source = RuleSource.suggested;
    status = RuleStatus.suggested;
    evidence = some (evidence_text s.source);
  }

  -- What becomes of a suggestion: a rule, or the reason to discard it.
  pub data Decision : Type 0 where
    keep : BusinessRule → Decision
    discard : Discarded → Decision

  abbrev pub has_scope : SuggestedRule → Bool
  has_scope s = is_empty s.applies_to || not (is_empty (scope_of s))

  unfoldable pub decide : List String → SuggestedRule → Raises Decision
  unfolding check_evidence valid_globs
  decide taken s =
      if is_one_of taken s.rule_id
      then ok (discard (id_used s.rule_id))
      else check_evidence U files [] none s.source >>= (λ v.
        if is_some v.0 || not v.1
        then ok (discard (not_verified s.rule_id v.0))
        else if not (has_scope s)
        then ok (discard (matches_no_file s.rule_id s.applies_to))
        else valid_globs (scope_of s) >>= λ globs. ok (keep (rule_of s globs)))

  abbrev pub add_decision :
      Decision → List BusinessRule × List Discarded → List BusinessRule × List Discarded
  add_decision (keep r) (kept, discarded) = (r ∷ kept, discarded)
  add_decision (discard d) (kept, discarded) = (kept, d ∷ discarded)

  -- `taken.add(suggestion.rule_id)` of a kept one
  abbrev pub take_id : Decision → List String → List String
  take_id (keep r) taken = r.rule_id ∷ taken
  take_id (discard d) taken = taken

  -- The loop of `_validate`
  unfoldable pub validate :
      List String → List SuggestedRule → Raises (List BusinessRule × List Discarded)
  unfolding decide
  validate taken [] = ok ([], [])
  validate taken (s ∷ ss) =
      decide taken s >>= λ d. validate (take_id d taken) ss >>= λ r. ok (add_decision d r)
