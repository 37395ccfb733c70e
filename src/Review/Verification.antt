-- ===== src/Review/Verification.antt =====
-- review/verification.py and agents/verifier/schema.py: every finding is checked by a run of the
-- Verifier, whose verdict is applied under rules of the program's own.
pub mod Verdicts
use Prim.Native.String.{String}
use analysis_engine_service.Prelude.{
  ℕ, ◌+◌, Bool, true, false, not, Option, none, some, List, [], ◌∷◌, ◌++◌, if◌then◌else◌, ltb, any,
  is_some,
}
use analysis_engine_service.Prelude.Floats.{Floats}
use analysis_engine_service.Prelude.Text.{Unicode}
use analysis_engine_service.Prelude.Raises.{Raises, ok, value_error, ◌>>=◌}
use analysis_engine_service.Domain.Finding.{Finding}
use analysis_engine_service.Domain.AgentReview.{
  Severity, AgentFinding, verified, DropReason, not_confirmed, said, Stage, verifier,
  DroppedCandidate,
}
use analysis_engine_service.Rules.RuleSet.{RuleSet}
use analysis_engine_service.Agents.Reviewer.Schema.{Evidence}
use analysis_engine_service.Agents.Reviewer.Evidence.{check_evidence}
use analysis_engine_service.Agents.Reviewer.Validation.{severity_rank}
use analysis_engine_service.Agents.Runtime.Provider.{Usage, no_usage, add_usage}
use analysis_engine_service.Agents.Runtime.AgentLoop.{
  StopReason, submitted, invalid_output, budget_exhausted, timeout, refused, provider_error,
  AgentRun, add_cost,
}

pub data Question : Type 0 where
  evidence_matches reachable guarded_elsewhere already_handled intended material : Question
  rule_applies : Question

pub record Check : Type 0 where
  pub question : Question
  pub refutes_issue : Bool
  pub note : String

pub data Answer : Type 0 where
  keep drop : Answer

pub record VerifierOutput : Type 0 where
  pub verdict : Answer
  pub reason : String
  pub checks : List Check
  pub adjusted_severity : Option Severity
  pub counter_evidence : List Evidence

-- `run.stop_reason.replace("_", " ")`
abbrev pub stop_words : StopReason → String
stop_words submitted = "submitted"
stop_words invalid_output = "invalid output"
stop_words budget_exhausted = "budget exhausted"
stop_words timeout = "timeout"
stop_words refused = "refused"
stop_words provider_error = "provider error"

abbrev pub is_outage : StopReason → Bool
is_outage r = elim r [ provider_error ↦ true | _ ↦ false ]

-- `verdict.adjusted_severity and rank[adjusted] < rank[severity]`
unfoldable pub lowered : Severity → Option Severity → Severity
lowered severity none = severity
lowered severity (some s) = if ltb (severity_rank s) (severity_rank severity) then s else severity

module _ (F : Floats) where
  open F use {Float, of_ℕ}

  pub record VerificationResult : Type 0 where
    pub kept : List (AgentFinding Float)
    pub refuted : List DroppedCandidate
    pub usage : Usage
    pub cost_usd : Option Float
    pub calls : ℕ

  abbrev pub keep_finding : AgentFinding Float → VerificationResult → VerificationResult
  keep_finding f r = record r { kept = r.kept ++ f ∷ [] }

  abbrev pub refute_finding :
      AgentFinding Float → DropReason → VerificationResult → VerificationResult
  refute_finding f why r = record r {
    refuted = r.refuted ++ record { title = f.title; reason = why; stage = verifier } ∷ [];
  }

  abbrev pub confirm : AgentFinding Float → Option Severity → AgentFinding Float
  confirm f adjusted = record f { verification = verified; severity = lowered f.severity adjusted }

  module _ (U : Unicode) (files : String → Option (List String)) (findings : List Finding)
      (rules : Option RuleSet) where
    -- Whether a piece of the counter-evidence has a problem: `invented` is not empty.
    unfoldable pub is_any_invented : List Evidence → Raises Bool
    is_any_invented [] = ok false
    is_any_invented (e ∷ es) = do
      v ← check_evidence U files findings rules e
      rest ← is_any_invented es
      ok (if is_some v.0 then true else rest)

    unfoldable pub apply_output :
        AgentFinding Float → VerifierOutput → VerificationResult → Raises VerificationResult
    unfolding is_any_invented lowered
    apply_output f o r = elim o.verdict [
      | drop ↦ do
        invented ← is_any_invented o.counter_evidence
        ok (if invented then keep_finding f r else refute_finding f (said o.reason) r)
      | keep ↦ ok (
          if any (λ (c : Check). c.refutes_issue) o.checks
          then keep_finding f r
          else keep_finding (confirm f o.adjusted_severity) r)
    ]

    -- `_apply`
    unfoldable pub apply :
        AgentFinding Float
        → AgentRun F VerifierOutput
        → VerificationResult
        → Raises VerificationResult
    unfolding apply_output
    apply f run r = elim run.output [
      | some o ↦ apply_output f o r
      | none ↦ ok (
          if is_outage run.stop_reason
          then keep_finding f r
          else refute_finding f (not_confirmed (stop_words run.stop_reason)) r)
    ]

    -- The loop over the findings and their runs, which `gather` gives in the findings' order.
    unfoldable pub apply_all :
        VerificationResult
        → List (AgentFinding Float × AgentRun F VerifierOutput)
        → Raises VerificationResult
    unfolding apply add_cost add_usage
    apply_all r [] = ok r
    apply_all r ((f, run) ∷ rest) =
        apply f run (record r {
          calls = r.calls + 1;
          usage = add_usage r.usage run.usage;
          cost_usd = add_cost F r.cost_usd run.cost_usd;
        })
        >>= λ r'. apply_all r' rest

    -- `verify_findings`, from the runs of the Verifier on.
    unfoldable pub verify_findings :
        List (AgentFinding Float × AgentRun F VerifierOutput) → Raises VerificationResult
    unfolding apply_all
    verify_findings runs =
        apply_all
          (record {
            kept = [];
            refuted = [];
            usage = no_usage;
            cost_usd = some (of_ℕ 0);
            calls = 0;
          })
          runs
