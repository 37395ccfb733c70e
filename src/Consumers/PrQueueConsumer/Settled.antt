-- ===== src/Consumers/PrQueueConsumer/Settled.antt =====
-- Every message that can be read is settled once, and acknowledged only if what it gave is stored.
use analysis_engine_service.Prelude.{
  ℕ, ◌≡◌, ◌≢◌, refl, String, Bool, true, false, Bool-cases, Option, none, some, is_none, inl, inr,
  List, [], ◌∷◌, ◌++◌, map, if◌then◌else◌, All, All-append, arith,
}
use analysis_engine_service.Domain.CodeIndex.{RepoIndex}
use analysis_engine_service.Domain.AgentReview.{AgentReview}
use analysis_engine_service.Application.Orchestrator.{
  ToolRun, ResultStatus, AnalysisResult, completed, failed,
}
use analysis_engine_service.Application.Pipeline.{
  Saved, result, review, Job, Run, ◌>>=◌, ReviewStage, save, run_review, second_stage, run,
}
use analysis_engine_service.Consumers.PrQueueConsumer.{
  Body, unreadable, malformed, invalid, valid, Event, saved, acked, nacked, settle, handle_message,
}

abbrev pub IsReview : {Float : Type 0} → Saved Float → Type 0
IsReview (result r) = ⊥
IsReview (review r) = Unit

-- The result comes first, and then reviews.
abbrev pub ResultFirst : {Float : Type 0} → List (Saved Float) → Type 0
ResultFirst [] = Unit
ResultFirst (result r ∷ rest) = All IsReview rest
ResultFirst (review r ∷ rest) = ⊥

module _ {Float : Type 0} (stored : Saved Float → Bool) where
  abbrev pub AreStored : List (Saved Float) → Type 0
  AreStored saves = All (λ s. stored s ≡ true) saves

  -- A run without an exception has stored all that it handed over.
  abbrev IsCareful : {A : Type 0} → Run Float A → Type 0
  IsCareful {A} (done, outcome) = (a : A) → outcome ≡ some a → AreStored done

  abbrev HasReviews : {A : Type 0} → Run Float A → Type 0
  HasReviews (done, outcome) = All IsReview done

  bind-IsCareful :
      {A B : Type 0} (m : Run Float A) (f : A → Run Float B)
      → IsCareful m
      → ((a : A) → IsCareful (f a))
      → IsCareful (m >>= f)
  bind-IsCareful (done, none) f h k = λ a e. absurd (cc)
  bind-IsCareful (done, some a) f h k =
      λ b e. All-append (λ s. stored s ≡ true) done (f a).0 (h a refl) (k a b e)

  bind-HasReviews :
      {A B : Type 0} (m : Run Float A) (f : A → Run Float B)
      → HasReviews m
      → ((a : A) → HasReviews (f a))
      → HasReviews (m >>= f)
  bind-HasReviews (done, none) f h k = h
  bind-HasReviews (done, some a) f h k = All-append IsReview done (f a).0 h (k a)

  save-IsCareful : (s : Saved Float) → IsCareful (save stored s)
  save-IsCareful s = λ a e.
      (elim (Bool-cases (stored s)) [ inl y ↦ y | inr n ↦ absurd (ground (arith, n, e)) ], tt)

  -- Both: it hands over reviews only, and it is careful.
  abbrev IsTidy : {A : Type 0} → Run Float A → Type 0
  IsTidy r = HasReviews r × IsCareful r

  bind-IsTidy :
      {A B : Type 0} (m : Run Float A) (f : A → Run Float B)
      → IsTidy m
      → ((a : A) → IsTidy (f a))
      → IsTidy (m >>= f)
  bind-IsTidy m f h k =
      (bind-HasReviews m f h.0 (λ a. (k a).0), bind-IsCareful m f h.1 (λ a. (k a).1))

  if-IsTidy :
      {A : Type 0} (b : Bool) (x y : Run Float A)
      → IsTidy x
      → IsTidy y
      → IsTidy (if b then x else y)
  if-IsTidy true x y h k = h
  if-IsTidy false x y h k = k

  nothing-IsTidy : {A : Type 0} (a : A) → IsTidy ([], some a)
  nothing-IsTidy a = (tt, λ b e. tt)

  review-IsTidy : (r : AgentReview Float) → IsTidy (save stored (review r))
  review-IsTidy r = ((tt, tt), save-IsCareful (review r))

module _ {Float : Type 0} (digest : String → String) (elements : List ℕ → List ℕ) where
  run_review-IsTidy :
      (job : Job Float) (stage : ReviewStage Float) (res : AnalysisResult)
      (index : Option RepoIndex)
      → IsTidy job.stored (run_review digest elements job stage res index)
  unfolding run_review
  run_review-IsTidy job stage res index =
      let begun = stage.pending res in
      let final = stage.run res index begun in
      bind-IsTidy job.stored _ _
        (if-IsTidy job.stored job.on_review _ _
          (if-IsTidy job.stored (is_none (stage.skip_reason (some res.changes))) _ _
            (review-IsTidy job.stored begun) (nothing-IsTidy job.stored tt))
          (nothing-IsTidy job.stored tt))
        (λ _.
          bind-IsTidy job.stored _ _
            (if-IsTidy job.stored job.on_review _ _ (review-IsTidy job.stored final)
              (nothing-IsTidy job.stored tt))
            (λ _. nothing-IsTidy job.stored final))

  second_stage-IsTidy :
      (job : Job Float) (res : AnalysisResult) (index : Option RepoIndex)
      → IsTidy job.stored (second_stage digest elements job res index)
  unfolding second_stage
  second_stage-IsTidy job res index = at job.stage res.status
    where
      at :
          (o : Option (ReviewStage Float)) (status : ResultStatus)
          → IsTidy job.stored (elim o [
            | none ↦ ([], some none)
            | some stage ↦ elim status [
              | failed ↦ ([], some none)
              | completed ↦
                  run_review digest elements job stage res index >>= λ r. ([], some (some r))
            ]
          ])
      at none status = nothing-IsTidy job.stored none
      at (some stage) failed = nothing-IsTidy job.stored none
      at (some stage) completed =
          bind-IsTidy job.stored _ _ (run_review-IsTidy job stage res index)
            (λ r. nothing-IsTidy job.stored (some r))

  -- What a run hands over: its result first, and all of it stored unless an exception ended it. A
  -- run without an exception hands over something.
  abbrev IsRun : {A : Type 0} → (Saved Float → Bool) → Run Float A → Type 0
  IsRun {A} stored (done, outcome) =
      ResultFirst done × ((a : A) → outcome ≡ some a → (done ≢ []) × AreStored stored done)

  result-IsRun :
      {A : Type 0} (stored : Saved Float → Bool) (r : AnalysisResult) (f : Unit → Run Float A)
      → IsTidy stored (f tt)
      → IsRun stored (save stored (result r) >>= f)
  result-IsRun stored r f h = at (stored (result r)) refl
    where
      at :
          (b : Bool)
          → stored (result r) ≡ b
          → IsRun stored ((result r ∷ [], if b then some tt else none) >>= f)
      at true e = (h.0, λ a q. ((λ n. absurd (cc)), (e, h.1 a q)))
      at false e = (tt, λ a q. absurd (cc))

  run-IsRun : (job : Job Float) → IsRun job.stored (run digest elements job)
  unfolding run
  run-IsRun job = at job.workspace
    where
      at :
          (o : Option (List (String × ToolRun)))
          → IsRun job.stored (run digest elements (record job { workspace = o }))
      at none = (tt, λ a e. absurd (cc))
      at (some runs) = result-IsRun job.stored _ _ (
          bind-IsTidy job.stored _ _
            (second_stage-IsTidy (record job { workspace = some runs }) _ _)
            (λ r. nothing-IsTidy job.stored _))

  abbrev pub IsAcked : Event Float → Type 0
  IsAcked e = elim e [ acked ↦ Unit | _ ↦ ⊥ ]

  abbrev pub IsSettlement : Event Float → Type 0
  IsSettlement e = elim e [ saved s ↦ ⊥ | _ ↦ Unit ]

  -- The events of a message: what is saved, the result first, and then one settlement. An
  -- acknowledgement says that there is a result, and that it and every review are stored.
  pub record IsHandled (stored : Saved Float → Bool) (events : List (Event Float)) : Type 0 where
    pub saves : List (Saved Float)
    pub last : Event Float
    pub shape : events ≡ map saved saves ++ last ∷ []
    pub first : ResultFirst saves
    pub settled : IsSettlement last
    pub kept : IsAcked last → (saves ≢ []) × AreStored stored saves

  abbrev pub Handles : Body Float → List (Event Float) → Type 0
  Handles unreadable events = events ≡ []
  Handles malformed events = events ≡ nacked ∷ []
  Handles invalid events = events ≡ nacked ∷ []
  Handles (valid job) events = IsHandled job.stored events

  -- `_handle_message` settles every message whose body can be read once, at its end. It acknowledges
  -- only a job whose result was handed over first and stored, and whose reviews were stored too; a
  -- message that is not JSON or no job is refused, with nothing saved. One of which `json.loads` raises
  -- another exception, such as a body that is not UTF-8, is neither acknowledged nor refused.
  pub handle_message-IsHandled :
      (acks : Bool) (body : Body Float) → Handles body (handle_message digest elements acks body)
  unfolding handle_message
  handle_message-IsHandled acks unreadable = refl
  handle_message-IsHandled acks malformed = refl
  handle_message-IsHandled acks invalid = refl
  handle_message-IsHandled acks (valid job) =
      at (run digest elements job).0 (run digest elements job).1 (run-IsRun job)
    where
      at :
          {A : Type 0} (done : List (Saved Float)) (outcome : Option A)
          → IsRun job.stored (done, outcome)
          → IsHandled job.stored (map saved done ++ settle acks outcome ∷ [])
      at done none h = record {
        saves = done;
        last = nacked;
        shape = refl;
        first = h.0;
        settled = tt;
        kept = λ n. absurd n;
      }
      at done (some a) h = record {
        saves = done;
        last = if acks then acked else nacked;
        shape = refl;
        first = h.0;
        settled = elim acks as (λ b. IsSettlement (if b then acked else nacked)) [
          | true ↦ tt
          | false ↦ tt
        ];
        kept = λ n. h.1 a refl;
      }
