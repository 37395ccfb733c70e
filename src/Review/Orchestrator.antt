-- ===== src/Review/Orchestrator.antt =====
-- review/review_orchestrator.py: stage 2 for one pull request.
pub mod RuleChecks
pub mod Run
use Prim.Native.String.{String}
use analysis_engine_service.Prelude.{
  ℕ, ◌+◌, Bool, true, false, not, ◌||◌, Option, none, some, List, [], ◌∷◌, ◌++◌, if◌then◌else◌, ltb,
  any, filter, map, length, is_some, is_none, ◌==◌, Dict, get, put,
}
use analysis_engine_service.Prelude.Floats.{Floats}
use analysis_engine_service.Prelude.Text.{Unicode, strip, strip_by, is_bracket}
use analysis_engine_service.Domain.AgentReview.{
  ReviewStatus, completed, failed, skipped, ReviewSkipReason, disabled, no_diff, too_large,
  no_changes, Severity, medium, AgentFinding, RuleOutcome, violated, satisfied, not_applicable,
  not_confirmed, not_checked, RuleCheck, marked_wrong, feedback, DroppedCandidate, AgentReview,
}
use analysis_engine_service.Domain.BusinessRule.{BusinessRule}
use analysis_engine_service.Domain.ChangeSet.{
  ChangeSet, ChangesUnavailableReason, Availability, available, unavailable, PullRequestChanges,
}
use analysis_engine_service.Rules.RuleSet.{RuleSet, applicable}
use analysis_engine_service.Agents.Reviewer.Schema.{CheckOutcome, RuleCheckOut, ReviewerOutput}
use analysis_engine_service.Agents.Reviewer.Validation.{ValidatedReview}
use analysis_engine_service.Agents.Runtime.AgentLoop.{AgentRun}
use analysis_engine_service.Review.Reporter.{rank_and_cap, risk_level}

abbrev pub is_too_large : Option ChangesUnavailableReason → Bool
is_too_large o = elim o [
  | none ↦ false
  | some r ↦ elim r [ ChangesUnavailableReason.too_large ↦ true | _ ↦ false ]
]

abbrev pub is_available : Availability → Bool
is_available s = elim s [ available ↦ true | unavailable ↦ false ]

abbrev pub is_empty {ℓ} : {A : Type ℓ} → List A → Bool
is_empty [] = true
is_empty (x ∷ xs) = false

-- The tests of `skip_reason` on changes whose change set is there.
unfoldable pub skip_of : ℕ → ℕ → PullRequestChanges → ChangeSet → Option ReviewSkipReason
skip_of max_files max_lines c s =
    if is_too_large c.unavailable_reason
    then some ReviewSkipReason.too_large
    else if not (is_available c.status)
    then some no_diff
    else if ltb max_files c.files_changed || ltb max_lines (c.lines_added + c.lines_removed)
    then some ReviewSkipReason.too_large
    else if not
        (any (λ f. not (is_empty f.added_lines) || not (is_empty f.deletion_points)) s.files)
    then some no_changes
    else none

-- `skip_reason`, with the settings `review_max_files` and `review_max_changed_lines`.
unfoldable pub skip_reason : ℕ → ℕ → Bool → Option PullRequestChanges → Option ReviewSkipReason
unfolding skip_of
skip_reason max_files max_lines has_provider changes =
    if not has_provider then some disabled else elim changes [
      | none ↦ some no_diff
      | some c ↦ elim c.change_set [
        | none ↦ some no_diff
        | some s ↦ skip_of max_files max_lines c s
      ]
    ]

abbrev pub is_in : String → List String → Bool
is_in x xs = any (λ y. y == x) xs

-- `claim.outcome`, a value of both types
abbrev pub outcome_of : CheckOutcome → RuleOutcome
outcome_of CheckOutcome.violated = violated
outcome_of CheckOutcome.satisfied = satisfied
outcome_of CheckOutcome.not_applicable = not_applicable

-- What the Reviewer said of a rule no issue cites.
abbrev pub claimed : Option RuleCheckOut → RuleOutcome
claimed none = not_checked
claimed (some claim) = elim claim.outcome [
  | CheckOutcome.violated ↦ not_confirmed
  | o ↦ outcome_of o
]

-- `{c.rule_id.strip().strip("[]"): c for c in model_checks}`
unfoldable pub say_all : Unicode → Dict RuleCheckOut → List RuleCheckOut → Dict RuleCheckOut
say_all U said [] = said
say_all U said (c ∷ cs) = say_all U (put (strip_by is_bracket (strip U c.rule_id)) c said) cs

-- The check of one rule.
unfoldable pub rule_check : List String → Dict RuleCheckOut → BusinessRule → RuleCheck
rule_check cited said rule =
    let claim = get rule.rule_id said in
    record {
      rule_id = rule.rule_id;
      rule = rule.rule;
      severity = rule.severity;
      outcome = if is_in rule.rule_id cited then violated else claimed claim;
      note = elim claim [ none ↦ none | some c ↦ some c.note ];
    }

-- The loop of `_rule_checks`
unfoldable pub check_rules :
    List String → Dict RuleCheckOut → List String → List BusinessRule → List RuleCheck
unfolding rule_check
check_rules cited said seen [] = []
check_rules cited said seen (r ∷ rs) =
    let rest = check_rules cited said (r.rule_id ∷ seen) rs in
    if is_in r.rule_id seen then check_rules cited said seen rs else rule_check cited said r ∷ rest

-- `{rule_id for finding in reported for rule_id in finding.rule_ids}`
abbrev pub cited_of : {Float : Type 0} → List (AgentFinding Float) → List String
cited_of [] = []
cited_of (f ∷ fs) = f.rule_ids ++ cited_of fs

-- `rules.applicable(change_set) + [r for r in rules.rules if r.rule_id in cited]`
abbrev pub relevant : RuleSet → ChangeSet → List String → List BusinessRule
relevant rules change_set cited =
    applicable rules change_set ++ filter (λ r. is_in r.rule_id cited) rules.rules

-- `_rule_checks`
unfoldable pub rule_checks :
    {Float : Type 0}
    → Unicode
    → RuleSet
    → ChangeSet
    → List RuleCheckOut
    → List (AgentFinding Float)
    → List RuleCheck
unfolding check_rules say_all
rule_checks U rules change_set model_checks reported =
    check_rules (cited_of reported) (say_all U [] model_checks) []
      (relevant rules change_set (cited_of reported))

-- `_without_rejected`: `rejected` are the fingerprints that a developer marked wrong, none if there is no
-- source of feedback or it fails.
unfoldable pub without_rejected :
    {Float : Type 0}
    → Option (List String)
    → List (AgentFinding Float)
    → List (AgentFinding Float) × List DroppedCandidate
without_rejected none findings = (findings, [])
without_rejected (some rejected) findings = (
  filter (λ f. not (is_in f.fingerprint rejected)) findings,
  map (λ f. record { title = f.title; reason = marked_wrong; stage = feedback })
      (filter (λ f. is_in f.fingerprint rejected) findings),
)
