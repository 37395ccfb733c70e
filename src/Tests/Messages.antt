-- ===== src/Tests/Messages.antt =====
-- A message whose job is reviewed.
use analysis_engine_service.Prelude.{ℕ, ◌≡◌, refl, true, none, some, [], length}
use analysis_engine_service.Application.Pipeline.{Job, ReviewStage}
use analysis_engine_service.Consumers.PrQueueConsumer.{valid, handle_message}
use analysis_engine_service.Consumers.PrQueueConsumer.Settled.{IsHandled, handle_message-IsHandled}
use analysis_engine_service.Tests.Samples.{review, digest}

abbrev stage : ReviewStage ℕ
stage = record {
  skip_reason = λ changes. none;
  pending = λ res. review;
  run = λ res index begun. begun;
}

abbrev job : Job ℕ
job = record {
  workspace = some [];
  extracted = none;
  built = none;
  stored = λ s. true;
  on_review = true;
  stage = some stage;
}

handle_message-IsHandled_example :
    IsHandled digest
      (λ lines. lines)
      job.stored
      (handle_message digest (λ lines. lines) true (valid job))
handle_message-IsHandled_example = handle_message-IsHandled digest (λ lines. lines) true (valid job)

-- The result, the review as it begins, the review as it ends, and the acknowledgement.
events_counted : length (handle_message digest (λ lines. lines) true (valid job)) ≡ 4
unfolding handle_message
events_counted = refl
