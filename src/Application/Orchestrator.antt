-- ===== src/Application/Orchestrator.antt =====
-- application/orchestrator.py: the analyzers' results become the result of the job. The metrics and
-- the times of a result are left out.
use Prim.Native.String.{String, ◌++◌ as str_append}
use analysis_engine_service.Prelude.{
  ◌≤◌, Bool-cases, inl, inr, ◌≡◌, ◌≢◌, refl, ◌↔◌, Bool, true, false, Option, none, some, List, [],
  ◌∷◌, ◌++◌, if◌then◌else◌, eqb, eqb_iff, length, All, arith,
}
use analysis_engine_service.Prelude.Text.{join}
use analysis_engine_service.Domain.Finding.{Finding}
use analysis_engine_service.Domain.ChangeSet.{available, unavailable, PullRequestChanges}
use analysis_engine_service.Diffing.ChangeMapper.{mark_findings}
use analysis_engine_service.Application.FindingNormalizer.{normalize}

-- What `gather(..., return_exceptions=True)` gives for an analyzer: findings, or an exception's text.
pub data ToolRun : Type 0 where
  found : List Finding → ToolRun
  crashed : String → ToolRun

pub data ResultStatus : Type 0 where
  completed failed : ResultStatus

pub record AnalysisResult : Type 0 where
  pub status : ResultStatus
  pub findings : List Finding
  pub changes : PullRequestChanges
  pub error_message : Option String

-- `_collect_results`, for the analyzers with their names
unfoldable pub collect_results : List (String × ToolRun) → List Finding × List String
collect_results [] = ([], [])
collect_results ((name, found fs) ∷ runs) =
    let (raw, failures) = collect_results runs in (fs ++ raw, failures)
collect_results ((name, crashed why) ∷ runs) =
    let (raw, failures) = collect_results runs in
    (raw, str_append name (str_append ": " why) ∷ failures)

-- `bool(analyzers) and len(failed_tools) == len(analyzers)`
abbrev pub all_failed : List (String × ToolRun) → List String → Bool
all_failed [] failures = false
all_failed (r ∷ runs) failures = eqb (length failures) (length (r ∷ runs))

-- The findings are marked only if the change set is there.
unfoldable pub mark_changes : List Finding → PullRequestChanges → List Finding × PullRequestChanges
mark_changes findings changes = elim changes.status [
  | unavailable ↦ (findings, changes)
  | available ↦ elim changes.change_set [
    | none ↦ (findings, changes)
    | some c ↦
        let (marked, n) = mark_findings findings c in
        (marked, record changes { findings_on_changed_lines = n })
  ]
]

-- `_build_result`
unfoldable pub build_result :
    (String → String) → List (String × ToolRun) → PullRequestChanges → AnalysisResult
build_result digest runs changes =
    let (raw, failures) = collect_results runs in
    let (findings, marked) = mark_changes (normalize digest raw) changes in
    record {
      status = if all_failed runs failures then failed else completed;
      findings = findings;
      changes = marked;
      error_message = if all_failed runs failures then some (join "; " failures) else none;
    }

abbrev pub IsCrashed : String × ToolRun → Type 0
IsCrashed r = elim r.1 [ crashed why ↦ Unit | found fs ↦ ⊥ ]

collect_results-le :
    (runs : List (String × ToolRun)) → length (collect_results runs).1 ≤ length runs
unfolding collect_results
collect_results-le [] = omega arith
collect_results-le ((name, found fs) ∷ runs) = omega (arith, collect_results-le runs)
collect_results-le ((name, crashed why) ∷ runs) = omega (arith, collect_results-le runs)

length-failures_iff :
    (runs : List (String × ToolRun))
    → (length (collect_results runs).1 ≡ length runs) ↔ All IsCrashed runs
unfolding collect_results
length-failures_iff [] = ground arith
length-failures_iff ((name, found fs) ∷ runs) =
    (λ e. absurd (omega (arith, collect_results-le runs)), λ h. absurd h.0)
length-failures_iff ((name, crashed why) ∷ runs) = (
  λ e. (tt, (length-failures_iff runs).0 (omega arith)),
  λ h. omega (arith, (length-failures_iff runs).1 h.1),
)

all_failed_iff :
    (runs : List (String × ToolRun))
    → (all_failed runs (collect_results runs).1 ≡ true) ↔ ((runs ≢ []) × All IsCrashed runs)
all_failed_iff [] = ((λ e. absurd (cc)), (λ h. absurd (h.0 refl)))
all_failed_iff (r ∷ runs) =
    let count = length-failures_iff (r ∷ runs) in
    let same = eqb_iff (length (collect_results (r ∷ runs)).1) (length (r ∷ runs)) in
    ((λ e. ((λ q. absurd (cc)), count.0 (same.0 e))), (λ h. same.1 (count.1 h.1)))

-- The job fails exactly if there were analyzers and every one of them crashed, and only then it has
-- an error message.
pub build_result-failed_iff :
    (digest : String → String) (runs : List (String × ToolRun)) (changes : PullRequestChanges)
    → (((build_result digest runs changes).status ≡ failed) ↔ ((runs ≢ []) × All IsCrashed runs))
      × (((build_result digest runs changes).error_message ≡ none)
          ↔ ((build_result digest runs changes).status ≡ completed))
unfolding build_result
build_result-failed_iff digest runs changes =
    elim (Bool-cases (all_failed runs (collect_results runs).1)) [
      | inl all ↦ rw all (
        ((λ e. (all_failed_iff runs).0 all), (λ h. refl)),
        ((λ e. absurd (cc)), (λ e. absurd (cc))),
      )
      | inr some_fine ↦ rw some_fine (
        ((λ e. absurd (cc)), (λ h. absurd (cc ((all_failed_iff runs).1 h, some_fine)))),
        ((λ e. refl), (λ e. refl)),
      )
    ]
