-- ===== src/Review/Orchestrator/Run/Reviewed.antt =====
-- What a finished review reports, whatever the models say.
use Prim.Native.String.{String}
use analysis_engine_service.Prelude.{
  ◌≡◌, refl, subst, inl, inr, Bool, true, false, ◌≢◌, ◌⊎◌, Option, none, some, List, [],
}
use analysis_engine_service.Prelude.Floats.{Floats}
use analysis_engine_service.Prelude.Text.{Unicode}
use analysis_engine_service.Prelude.Raises.{Raises, ok, value_error, ◌>>=◌, bind-eq-ok}
use analysis_engine_service.Domain.Finding.{Finding}
use analysis_engine_service.Domain.AgentReview.{
  completed, ReviewSkipReason, AgentFinding, DroppedCandidate, AgentReview,
}
use analysis_engine_service.Domain.ChangeSet.{ChangeSet}
use analysis_engine_service.Rules.RuleSet.{RuleSet}
use analysis_engine_service.Agents.Reviewer.Schema.{ReviewerOutput}
use analysis_engine_service.Agents.Reviewer.Validation.{ValidatedReview, validate_review}
use analysis_engine_service.Agents.Reviewer.Validation.Sift.{validate_review-Sifted}
use analysis_engine_service.Agents.Runtime.AgentLoop.{AgentRun}
use analysis_engine_service.Review.Verification.{VerifierOutput}
use analysis_engine_service.Review.Orchestrator.Run.Grounded.{
  AreGrounded, Sifted→All, verify_all-All, fill-All,
}
use analysis_engine_service.Review.Orchestrator.Run.{
  verify_all, fill, review_output, review_run, caught, finish, run,
}

module _ (F : Floats) (U : Unicode) (digest : String → String) (raised : String)
    (files : String → Option (List String)) (findings : List Finding) (repository : String)
    (rules : RuleSet) (change_set : ChangeSet) (verifier_enabled : Bool)
    (verify : AgentFinding (F.Float) → AgentRun F VerifierOutput)
    (rejected : Option (List String)) where
  open F use {Float}

  -- A review reports nothing, or it is completed and what it reports is grounded in the candidates.
  abbrev pub IsReviewed : AgentRun F (ReviewerOutput Float) → AgentReview Float → Type 0
  IsReviewed reviewer r =
      ((r.status ≢ completed) × (r.findings ≡ []))
      ⊎ ((r.status ≡ completed)
          × (output : ReviewerOutput Float) × (reviewer.output ≡ some output)
          × AreGrounded F U digest raised files findings repository rules change_set
              verifier_enabled verify rejected output.candidates r.findings)

  review_output-IsReviewed :
      (review r : AgentReview Float) (output : ReviewerOutput Float)
      → review_output F U digest raised files findings repository rules change_set verifier_enabled
          verify rejected review output
        ≡ ok r
      → (r.status ≡ completed)
        × AreGrounded F U digest raised files findings repository rules change_set verifier_enabled
            verify rejected output.candidates r.findings
  unfolding review_output
  review_output-IsReviewed review r output h = at _ refl h
    where
      checked :
          List (AgentFinding Float) → Raises (List (AgentFinding Float) × List DroppedCandidate)
      checked =
          verify_all F U digest raised files findings repository rules change_set verifier_enabled
            verify rejected

      filled :
          ValidatedReview Float
          → List (AgentFinding Float) × List DroppedCandidate
          → AgentReview Float
      filled v x =
          fill F U digest raised files findings repository rules change_set verifier_enabled verify
            rejected review v output.rule_checks x

      at :
          (o : Raises (ValidatedReview Float))
          → validate_review U files findings (some rules) Float digest repository output ≡ o
          → (o >>= λ v. checked v.findings >>= λ x. ok (filled v x)) ≡ ok r
          → (r.status ≡ completed)
            × AreGrounded F U digest raised files findings repository rules change_set
                verifier_enabled verify rejected output.candidates r.findings
      at value_error e k = absurd (cc)
      at (ok v) e k =
          let (x, c, same) = bind-eq-ok (checked v.findings) (filled v) r k in
          subst
            (λ (y : AgentReview Float).
              (y.status ≡ completed)
              × AreGrounded F U digest raised files findings repository rules change_set
                  verifier_enabled verify rejected output.candidates y.findings)
            same
            (
              unfold fill finish in refl,
              fill-All F U digest raised files findings repository rules change_set verifier_enabled
                  verify rejected output.candidates review v output.rule_checks x
                  (verify_all-All F U digest raised files findings repository rules change_set
                    verifier_enabled verify rejected output.candidates v.findings x c
                    (Sifted→All F U digest raised files findings repository rules change_set
                      verifier_enabled verify rejected
                      (validate_review-Sifted U files findings (some rules) Float digest repository
                        output v e))),
            )

  -- Whatever the models answer, a review that is not completed reports nothing, and a completed one
  -- reports at most seven issues: each is a candidate of the Reviewer, at its place, that the
  -- repository supports, with a severity no higher than its cited rules allow, and none has a
  -- fingerprint that a developer marked wrong.
  pub run-IsReviewed :
      (skip : Option ReviewSkipReason) (has_index : Bool) (review : AgentReview Float)
      (reviewer : AgentRun F (ReviewerOutput Float))
      → review.findings ≡ []
      → IsReviewed reviewer (
          run F U digest raised files findings repository rules change_set verifier_enabled verify
            rejected skip has_index review reviewer)
  unfolding run finish
  run-IsReviewed (some reason) has_index review reviewer none_yet = inl (λ e. absurd (cc), none_yet)
  run-IsReviewed none false review reviewer none_yet = inl (λ e. absurd (cc), none_yet)
  run-IsReviewed none true review reviewer none_yet = at reviewer.output refl
    where
      begun : AgentReview Float
      begun = record review { rule_errors = rules.errors }

      outcome :
          (output : ReviewerOutput Float)
          → reviewer.output ≡ some output
          → (x : Raises (AgentReview Float))
          → review_output F U digest raised files findings repository rules change_set
              verifier_enabled verify rejected begun output
            ≡ x
          → IsReviewed reviewer (
              caught F U digest raised files findings repository rules change_set verifier_enabled
                verify rejected begun x)
      outcome output e value_error q = inl (λ e. absurd (cc), none_yet)
      outcome output e (ok r) q =
          let (finished, grounded) = review_output-IsReviewed begun r output q in
          inr (finished, output, e, grounded)

      at :
          (o : Option (ReviewerOutput Float))
          → reviewer.output ≡ o
          → IsReviewed reviewer (
              caught F U digest raised files findings repository rules change_set verifier_enabled
                verify rejected begun
                (review_run F U digest raised files findings repository rules change_set
                  verifier_enabled verify rejected begun
                  (record reviewer { output = o })))
      at none e = unfold review_run in inl (λ e. absurd (cc), none_yet)
      at (some output) e = unfold review_run in outcome output e _ refl
