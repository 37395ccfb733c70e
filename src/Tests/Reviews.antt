-- ===== src/Tests/Reviews.antt =====
-- Reviews of the sample candidates: one quotes the code, the other invents a quote.
use analysis_engine_service.Rules.RuleSet.{get_rule}
use analysis_engine_service.Agents.Reviewer.Quote.{is_quoted_at}
use analysis_engine_service.Agents.Reviewer.Location.{parse_location}
use analysis_engine_service.Agents.Reviewer.Evidence.{check_evidence}
use analysis_engine_service.Prelude.{
  ℕ, ◌≡◌, refl, ◌↔◌, inl, true, none, some, List, [], ◌∷◌, map, Any, arith,
}
use analysis_engine_service.Prelude.Raises.{ok, ok_or}
use analysis_engine_service.Domain.AgentReview.{
  low, ReviewEvidence, AgentFinding, AgentReview, RuleCheck,
}
use analysis_engine_service.Agents.Reviewer.Validation.{
  ValidatedReview, supported, checked_item, check_candidate, validate_review, to_finding,
}
use analysis_engine_service.Agents.Reviewer.Validation.Kept.{IsSupported, check_candidate_iff}
use analysis_engine_service.Agents.Runtime.Provider.{no_usage}
use analysis_engine_service.Agents.Runtime.AgentLoop.{AgentRun, submitted}
use analysis_engine_service.Review.Reporter.{merge_all, rank_and_cap, merge, same_place, score}
use analysis_engine_service.Review.Reporter.Merge.{StandsFor}
use analysis_engine_service.Review.Reporter.Ranking.{rank_and_cap-StandsFor}
use analysis_engine_service.Review.Verification.{
  VerifierOutput, keep, drop, VerificationResult, verify_findings,
}
use analysis_engine_service.Review.Verification.Verdicts.{Verified, verify_findings-Verified}
use analysis_engine_service.Review.Orchestrator.{rule_checks}
use analysis_engine_service.Review.Orchestrator.RuleChecks.{AreOutcomes, rule_checks_lem}
use analysis_engine_service.Review.Orchestrator.Run.{run}
use analysis_engine_service.Review.Orchestrator.Run.Reviewed.{IsReviewed, run-IsReviewed}
use analysis_engine_service.Tests.Samples.{
  whole, ascii, digest, files, rules, quoted, invented, cited, candidate, output, issue, change_set,
  review,
}

abbrev finished : {T : Type 0} → T → AgentRun whole T
finished answer = record {
  output = some answer;
  stop_reason = submitted;
  usage = no_usage;
  cost_usd = some 1;
  calls = [];
  error = none;
}

abbrev verdict : VerifierOutput
verdict = record {
  verdict = keep;
  reason = "";
  checks = [];
  adjusted_severity = some low;
  counter_evidence = [];
}

abbrev refutation : VerifierOutput
refutation = record verdict { verdict = drop; counter_evidence = quoted ∷ [] }

abbrev reviewed : AgentReview ℕ
reviewed =
    run whole ascii digest "" files [] "r" rules change_set true (λ f. finished verdict) (some [])
      none true review (finished output)

run_reported : map (λ (f : AgentFinding ℕ). f.title) reviewed.findings ≡ "real" ∷ []
unfolding run check_candidate check_evidence parse_location is_quoted_at get_rule merge_all merge
    to_finding
run_reported = refl

run-IsReviewed_example :
    IsReviewed whole ascii digest "" files [] "r" rules change_set true
      (λ f. finished verdict)
      (some [])
      (finished output)
      reviewed
run-IsReviewed_example =
    run-IsReviewed whole ascii digest "" files [] "r" rules change_set true (λ f. finished verdict)
      (some []) none true review (finished output) refl

abbrev nothing : ValidatedReview ℕ
nothing = record {
  summary = "";
  areas_touched = [];
  findings = [];
  linter_triage = [];
  dropped = [];
  triage_dropped = [];
}

abbrev validated : ValidatedReview ℕ
validated = ok_or nothing (validate_review ascii files [] (some rules) ℕ digest "r" output)

abbrev evidence : List ReviewEvidence
evidence = checked_item quoted true ∷ checked_item cited true ∷ []

check_candidate_iff_example :
    (check_candidate ascii files [] (some rules) ℕ (candidate "real" (quoted ∷ cited ∷ []))
      ≡ ok (supported evidence))
    ↔ IsSupported ascii files [] (some rules) ℕ (candidate "real" (quoted ∷ cited ∷ [])) evidence
check_candidate_iff_example =
    check_candidate_iff ascii files [] (some rules) ℕ (candidate "real" (quoted ∷ cited ∷ []))
      evidence

abbrev runs : List (AgentFinding ℕ × AgentRun whole VerifierOutput)
runs =
    (issue "one" 1 3, finished verdict)
    ∷ (issue "two" 2 2, finished refutation)
    ∷ (issue "three" 2 1, finished (record refutation { counter_evidence = invented ∷ [] }))
    ∷ []

abbrev no_result : VerificationResult whole
no_result = record { kept = []; refuted = []; usage = no_usage; cost_usd = none; calls = 0 }

abbrev verification : VerificationResult whole
verification = ok_or no_result (verify_findings whole ascii files [] (some rules) runs)

is_verified : verify_findings whole ascii files [] (some rules) runs ≡ ok verification
unfolding verify_findings check_evidence parse_location
is_verified = refl

verified_titles : map (λ (f : AgentFinding ℕ). f.title) verification.kept ≡ "one" ∷ "three" ∷ []
unfolding verify_findings check_evidence parse_location is_quoted_at
verified_titles = refl

verify_findings-Verified_example :
    Verified whole ascii files [] (some rules) runs verification.kept verification.refuted
    × (verification.calls ≡ 3)
verify_findings-Verified_example =
    verify_findings-Verified whole ascii files [] (some rules) runs verification is_verified

abbrev issues : List (AgentFinding ℕ)
issues = issue "one" 1 1 ∷ issue "two" 1 2 ∷ issue "three" 2 3 ∷ []

rank_and_cap_titles :
    map (λ (f : AgentFinding ℕ). f.title) (rank_and_cap whole issues) ≡ "three" ∷ "two" ∷ []
unfolding rank_and_cap merge_all score merge same_place
rank_and_cap_titles = refl

rank_and_cap-StandsFor_example :
    Any (λ m. StandsFor whole m (issue "one" 1 1)) (rank_and_cap whole issues)
unfolding merge_all score merge same_place
rank_and_cap-StandsFor_example =
    rank_and_cap-StandsFor whole issues (omega arith) (issue "one" 1 1) (inl refl)

abbrev outcomes : List RuleCheck
outcomes = rule_checks ascii rules change_set output.rule_checks issues

rule_checks_lem_example : AreOutcomes rules change_set issues outcomes
rule_checks_lem_example = rule_checks_lem ascii rules change_set output.rule_checks issues
