-- ===== src/Consumers/PrQueueConsumer.antt =====
-- consumers/pr_queue_consumer.py: one message of the queue, handled and settled.
pub mod Settled
use analysis_engine_service.Prelude.{
  ℕ, ◌≡◌, ◌≢◌, refl, sym, ap, ◌∙◌, String, Bool, true, false, Bool-cases, Option, none, some, inl,
  inr, ◌⊎◌, List, [], ◌∷◌, ◌++◌, map, append-nil, append_assoc, if◌then◌else◌, All, arith,
}
use analysis_engine_service.Domain.AgentReview.{AgentReview}
use analysis_engine_service.Application.Orchestrator.{AnalysisResult, completed, failed}
use analysis_engine_service.Application.Pipeline.{
  Saved, result, review, Job, Run, ReviewStage, run, save, second_stage, run_review,
}

-- The body of a message: text that is not JSON, JSON that is no job, or a job. Of a body that is
-- `unreadable`, `json.loads` raises what is no `JSONDecodeError`: `UnicodeDecodeError` where it is not
-- UTF-8, or `RecursionError` where it is nested too deep.
pub data Body (Float : Type 0) : Type 0 where
  unreadable malformed invalid : Body Float
  valid : Job Float → Body Float

-- What handling a message does to the world, in order. `nack` never asks for the message again.
pub data Event (Float : Type 0) : Type 0 where
  saved : Saved Float → Event Float
  acked nacked : Event Float

-- The end of the `try` block: `ack` may fail, and then the message is refused.
abbrev pub settle : {Float A : Type 0} → Bool → Option A → Event Float
settle acks none = nacked
settle acks (some a) = if acks then acked else nacked

module _ {Float : Type 0} (digest : String → String) (elements : List ℕ → List ℕ) where
  -- `_handle_message`; `acks` says that the broker takes the acknowledgement.
  unfoldable pub handle_message : Bool → Body Float → List (Event Float)
  unfolding run
  handle_message acks unreadable = []
  handle_message acks malformed = nacked ∷ []
  handle_message acks invalid = nacked ∷ []
  handle_message acks (valid job) =
      let (done, outcome) = run digest elements job in map saved done ++ settle acks outcome ∷ []
