-- ===== src/Application/Pipeline.antt =====
-- application/orchestrator.py: a job from the checkout to the review, with what the caller saves on
-- the way. The analyzers, git, the index and the models behave as a `Job` says.
use analysis_engine_service.Prelude.{
  ℕ, String, Bool, true, false, Option, none, some, is_none, List, [], ◌∷◌, ◌++◌, if◌then◌else◌,
}
use analysis_engine_service.Domain.CodeIndex.{RepoIndex}
use analysis_engine_service.Domain.ChangeSet.{PullRequestChanges, available, unavailable, error}
use analysis_engine_service.Domain.AgentReview.{AgentReview, ReviewSkipReason}
use analysis_engine_service.Diffing.ChangeMapper.{changed_symbols}
use analysis_engine_service.Diffing.DiffExtractor.{unavailable_changes}
use analysis_engine_service.Application.Orchestrator.{
  ToolRun, completed, failed, AnalysisResult, build_result,
}

-- What is handed to the caller: the result, and a review when it starts and when it ends.
pub data Saved (Float : Type 0) : Type 0 where
  result : AnalysisResult → Saved Float
  review : AgentReview Float → Saved Float

-- What was handed over, and a value unless an exception ended it.
abbrev pub Run : Type 0 → Type 0 → Type 0
Run Float A = List (Saved Float) × Option A

infixl 5 ◌>>=◌
abbrev pub ◌>>=◌ : {Float A B : Type 0} → Run Float A → (A → Run Float B) → Run Float B
(done, none) >>= f = (done, none)
(done, some a) >>= f = let (more, b) = f a in (done ++ more, b)

-- The stage behind the result: `skip_reason`, `pending` and `run` of a `ReviewOrchestrator`.
pub record ReviewStage (Float : Type 0) : Type 0 where
  pub skip_reason : Option PullRequestChanges → Option ReviewSkipReason
  pub pending : AnalysisResult → AgentReview Float
  pub run : AnalysisResult → Option RepoIndex → AgentReview Float → AgentReview Float

-- What the other components do for a job: none stands for an exception. `stored` says whether a
-- callback takes what it is given.
pub record Job (Float : Type 0) : Type 0 where
  pub workspace : Option (List (String × ToolRun))
  pub extracted : Option PullRequestChanges
  pub built : Option RepoIndex
  pub stored : Saved Float → Bool
  pub on_review : Bool
  pub stage : Option (ReviewStage Float)

-- `await on_result(result)` and `await on_review(review)`
abbrev pub save : {Float : Type 0} → (Saved Float → Bool) → Saved Float → Run Float Unit
save stored s = (s ∷ [], if stored s then some tt else none)

-- `changes.change_set.files`, if the changes are available
abbrev pub has_files : PullRequestChanges → Bool
has_files c = elim c.status [
  | unavailable ↦ false
  | available ↦ elim c.change_set [
    | none ↦ false
    | some s ↦ elim s.files [ [] ↦ false | _ ∷ _ ↦ true ]
  ]
]

-- `_extract_changes`, the symbols of the changes that were extracted
unfoldable pub add_symbols :
    (List ℕ → List ℕ)
    → PullRequestChanges
    → Option RepoIndex
    → PullRequestChanges × Option RepoIndex
unfolding changed_symbols
add_symbols elements changes none = (changes, none)
add_symbols elements changes (some index) = elim changes.change_set [
  | none ↦ (changes, some index)
  | some s ↦ (record changes { changed_symbols = changed_symbols elements index s }, some index)
]

module _ {Float : Type 0} (digest : String → String) (elements : List ℕ → List ℕ) where
  unfoldable pub extract_changes : Job Float → PullRequestChanges × Option RepoIndex
  unfolding add_symbols
  extract_changes job = elim job.extracted [
    | none ↦ (unavailable_changes error, none)
    | some changes ↦
        if has_files changes then add_symbols elements changes job.built else (changes, none)
  ]

  -- `_run_review`
  unfoldable pub run_review :
      Job Float
      → ReviewStage Float
      → AnalysisResult
      → Option RepoIndex
      → Run Float (AgentReview Float)
  run_review job stage res index =
      let begun = stage.pending res in
      let announced : Run Float Unit =
        if job.on_review
        then (if is_none (stage.skip_reason (some res.changes))
            then save job.stored (review begun)
            else ([], some tt))
        else ([], some tt) in
      announced >>= λ _.
      (let final = stage.run res index begun in
        (if job.on_review then save job.stored (review final) else ([], some tt)) >>= λ _.
        ([], some final))

  -- The review of a result, if there is a stage for it and the job did not fail.
  unfoldable pub second_stage :
      Job Float → AnalysisResult → Option RepoIndex → Run Float (Option (AgentReview Float))
  unfolding run_review
  second_stage job res index = elim job.stage [
    | none ↦ ([], some none)
    | some stage ↦ elim res.status [
      | failed ↦ ([], some none)
      | completed ↦ run_review job stage res index >>= λ r. ([], some (some r))
    ]
  ]

  -- `run`: the result with its review
  unfoldable pub run : Job Float → Run Float (AnalysisResult × Option (AgentReview Float))
  unfolding second_stage extract_changes build_result
  run job = elim job.workspace [
    | none ↦ ([], none)
    | some runs ↦
        let (changes, index) = extract_changes job in
        let res = build_result digest runs changes in
        save job.stored (result res) >>= λ _.
        second_stage job res index >>= λ r. ([], some (res, r))
  ]
