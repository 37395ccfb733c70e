-- ===== src/Review/Orchestrator/Run.antt =====
-- `ReviewOrchestrator.run`: from the Reviewer's run to the finished review. The statistics and the
-- times of a review are left out.
pub mod Grounded
pub mod Reviewed
use Prim.Native.String.{String, ◌++◌ as str_append}
use analysis_engine_service.Prelude.{
  ℕ, Bool, true, false, not, ◌&&◌, Option, none, some, List, [], ◌∷◌, ◌++◌, if◌then◌else◌, any, map,
  is_none, ◌==◌,
}
use analysis_engine_service.Prelude.Floats.{Floats}
use analysis_engine_service.Prelude.Text.{Unicode, text_take}
use analysis_engine_service.Prelude.Raises.{Raises, ok, value_error, ◌>>=◌}
use analysis_engine_service.Domain.Finding.{Finding}
use analysis_engine_service.Domain.AgentReview.{
  ReviewStatus, completed, failed, skipped, ReviewSkipReason, no_diff, Severity, high, medium, low,
  AgentFinding, RuleOutcome, violated, RuleCheck, DroppedCandidate, AgentReview,
}
use analysis_engine_service.Domain.ChangeSet.{ChangeSet}
use analysis_engine_service.Rules.RuleSet.{RuleSet}
use analysis_engine_service.Agents.Reviewer.Schema.{RuleCheckOut, ReviewerOutput}
use analysis_engine_service.Agents.Reviewer.Validation.{ValidatedReview, validate_review}
use analysis_engine_service.Agents.Runtime.AgentLoop.{
  StopReason, submitted, invalid_output, budget_exhausted, timeout, refused, provider_error,
  AgentRun,
}
use analysis_engine_service.Review.Reporter.{rank_and_cap, risk_level}
use analysis_engine_service.Review.Verification.{VerifierOutput, verify_findings}
use analysis_engine_service.Review.Orchestrator.{is_empty, rule_checks, without_rejected}

abbrev pub stop_name : StopReason → String
stop_name submitted = "submitted"
stop_name invalid_output = "invalid_output"
stop_name budget_exhausted = "budget_exhausted"
stop_name timeout = "timeout"
stop_name refused = "refused"
stop_name provider_error = "provider_error"

-- `run.error or …`
abbrev pub error_or : Option String → String → String
error_or none d = d
error_or (some e) d = if e == "" then d else e

abbrev pub is_violated : RuleCheck → Bool
is_violated c = elim c.outcome [ violated ↦ true | _ ↦ false ]

-- "a violated rule is never low risk"
abbrev pub raised_risk : Severity → List RuleCheck → Severity
raised_risk low checks = if any is_violated checks then medium else low
raised_risk risk checks = risk

-- `_finish`, but for the time
unfoldable pub finish :
    {Float : Type 0}
    → AgentReview Float
    → ReviewStatus
    → Option ReviewSkipReason
    → Option String
    → AgentReview Float
finish review s skip e = record review { status = s; skip_reason = skip; error_message = e }

-- `digest` is SHA-256 of a text, `files` reads the workspace, `verify` is the Verifier's run on an
-- issue, `rejected` are the fingerprints that a developer marked wrong, and `raised` is the text of
-- the exception that the reading of a location can raise.
module _ (F : Floats) (U : Unicode) (digest : String → String) (raised : String)
    (files : String → Option (List String)) (findings : List Finding) (repository : String)
    (rules : RuleSet) (change_set : ChangeSet) (verifier_enabled : Bool)
    (verify : AgentFinding (F.Float) → AgentRun F VerifierOutput)
    (rejected : Option (List String)) where
  open F use {Float}

  -- `if settings.verifier_enabled and surviving:`
  unfoldable pub verify_all :
      List (AgentFinding Float) → Raises (List (AgentFinding Float) × List DroppedCandidate)
  unfolding verify_findings
  verify_all fs =
      if verifier_enabled && not (is_empty fs)
      then (do
        r ← verify_findings F U files findings (some rules) (map (λ f. (f, verify f)) fs)
        ok (r.kept, r.refuted))
      else ok (fs, [])

  -- The fields of the review, set once all the checks are done.
  unfoldable pub fill :
      AgentReview Float
      → ValidatedReview Float
      → List RuleCheckOut
      → List (AgentFinding Float) × List DroppedCandidate
      → AgentReview Float
  unfolding without_rejected rank_and_cap risk_level rule_checks finish
  fill review v said (surviving, refuted) =
      let left = without_rejected rejected surviving in
      let reported = rank_and_cap F left.0 in
      let checks = rule_checks U rules change_set said reported in
      finish
        (record review {
          summary = some v.summary;
          areas_touched = v.areas_touched;
          findings = reported;
          linter_triage = v.linter_triage;
          dropped = v.dropped ++ (refuted ++ left.1);
          triage_dropped = v.triage_dropped;
          rule_checks = checks;
          risk_level = some (raised_risk (risk_level F reported) checks);
        })
        completed none none

  unfoldable pub review_output :
      AgentReview Float → ReviewerOutput Float → Raises (AgentReview Float)
  unfolding verify_all fill validate_review
  review_output review output = do
    v ← validate_review U files findings (some rules) Float digest repository output
    checked ← verify_all v.findings
    ok (fill review v output.rule_checks checked)

  -- `_review`, from the Reviewer's run on.
  unfoldable pub review_run :
      AgentReview Float → AgentRun F (ReviewerOutput Float) → Raises (AgentReview Float)
  unfolding review_output finish
  review_run review run = elim run.output [
    | some output ↦ review_output review output
    | none ↦ ok (
        finish review failed none
          (some (error_or run.error (str_append "Reviewer stopped: " (stop_name run.stop_reason)))))
  ]

  -- The try block of `run`.
  abbrev pub caught : AgentReview Float → Raises (AgentReview Float) → AgentReview Float
  caught review (ok r) = r
  caught review value_error =
      finish review failed none (some (text_take 500 (str_append "ValueError: " raised)))

  -- `run`: `skip` is `skip_reason(result.changes)`, `has_index` says that there is an index.
  unfoldable pub run :
      Option ReviewSkipReason
      → Bool
      → AgentReview Float
      → AgentRun F (ReviewerOutput Float)
      → AgentReview Float
  unfolding review_run finish
  run skip has_index review reviewer = elim skip [
    | some reason ↦ finish review skipped (some reason) none
    | none ↦
        if not has_index
        then finish review skipped (some no_diff) none
        else (let begun = record review { rule_errors = rules.errors } in
            caught begun (review_run begun reviewer))
  ]
