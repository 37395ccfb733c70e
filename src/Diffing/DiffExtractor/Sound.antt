-- ===== src/Diffing/DiffExtractor/Sound.antt =====
-- `extract` ends with changes, unless git cannot be started or what it prints cannot be read.
use analysis_engine_service.Prelude.{◌⊎◌, All, ℕ, ◌≢◌, ◌≡◌, String, false, Option, none, some, List}
use analysis_engine_service.Prelude.Raises.{Raises, value_error}
use analysis_engine_service.Prelude.Text.{Unicode}
use analysis_engine_service.Prelude.Bytes.{Bytes}
use analysis_engine_service.Workspace.GitClient.{
  Outcome, done, security_error, crashed, GitProcess, exits, takes_too_long, cannot_start,
  validate_branch,
}
use analysis_engine_service.Domain.ChangeSet.{PullRequestChanges, no_target_branch, error}
use analysis_engine_service.Diffing.DiffParser.Numstat.{
  Numstat, NumstatEntry, parsed, parse_numstat,
}
use analysis_engine_service.Diffing.DiffParser.Patch.{parse_patch}
use analysis_engine_service.Diffing.DiffParser.Numstat.RoundTrip.{Row, IsRow, print_rows}
use analysis_engine_service.Diffing.DiffParser.Patch.Print.{FileDiff, patch_lines, print_lines}
use analysis_engine_service.Diffing.DiffParser.Patch.Sides.{Utf8}
use analysis_engine_service.Diffing.DiffParser.Patch.Files.{IsFileDiff}
use analysis_engine_service.Diffing.DiffExtractor.{numstat_args, patch_args}
use analysis_engine_service.Diffing.DiffExtractor.Laws.{IsChanges}

-- The changes of the diff, or a reason that is found on the way there.
abbrev IsFound : PullRequestChanges → Type 0
IsFound c =
    IsChanges c
    × (c.unavailable_reason ≢ some error)
    × (c.unavailable_reason ≢ some no_target_branch)

module _ (U : Unicode) (V : Utf8) (git : ℕ → List String → GitProcess) where
  open V use {decode}

  -- Why an exception may escape: a git command cannot be started, or what a diff command prints is
  -- refused by its parser, and then it is not what git prints of rows, or of the changes of files.
  pub data Failure : Type 0 where
    not_started : (n : ℕ) (args : List String) → git n args ≡ cannot_start → Failure
    numstat_unread :
        (n : ℕ) (base head : String) (out : Bytes)
        → git n (numstat_args base head) ≡ exits 0 out
        → ((entries : List NumstatEntry) → parse_numstat decode out ≢ parsed entries)
        → ((rows : List Row) → All IsRow rows → out ≢ print_rows rows)
        → Failure
    patch_unread :
        (n : ℕ) (base head : String) (excluded : List String) (out : Bytes)
        → git n (patch_args base head excluded) ≡ exits 0 out
        → parse_patch decode out ≡ value_error
        → ((fs : List FileDiff) → All (IsFileDiff V) fs → out ≢ print_lines (patch_lines fs))
        → Failure

  -- Why a git command raises `WorkspaceSecurityError`.
  pub data Trouble : Type 0 where
    too_slow : (n : ℕ) (args : List String) → git n args ≡ takes_too_long → Trouble
    failed :
        (n : ℕ) (args : List String) (code : ℕ) (out : Bytes)
        → git n args ≡ exits code out
        → code ≢ 0
        → Trouble

  -- A value that satisfies `P`, or an exception with such a cause.
  abbrev Ends {ℓ} : {A : Type ℓ} → (A → Type 0) → Outcome A → Type 0
  Ends P (done a) = P a
  Ends P security_error = Trouble
  Ends P crashed = Failure

  abbrev Any : {A : Type 0} → A → Type 0
  Any a = Unit

  -- The branch is refused, or git is asked.
  abbrev Tried : String → Outcome PullRequestChanges → Type 0
  Tried target o = ((validate_branch target ≡ false) × (o ≡ security_error)) ⊎ Ends IsFound o

  -- There is a target branch, and it is refused.
  abbrev pub IsBadBranch : Option String → Type 0
  IsBadBranch none = ⊥
  IsBadBranch (some target) = validate_branch target ≡ false

  -- There is no target branch.
  abbrev pub IsMissing : Option String → Type 0
  IsMissing none = Unit
  IsMissing (some target) = target ≡ ""

  -- Changes, and the reason `error` or `no_target_branch` only where there is one.
  pub record IsAnswer (target : Option String) (c : PullRequestChanges) : Type 0 where
    pub changes : IsChanges c
    pub error_why : c.unavailable_reason ≡ some error → IsBadBranch target ⊎ Trouble
    pub target_why : c.unavailable_reason ≡ some no_target_branch → IsMissing target

  -- What `extract` returns, or why an exception escapes it.
  abbrev pub IsExtracted : Option String → Outcome PullRequestChanges → Type 0
  IsExtracted target (done c) = IsAnswer target c
  IsExtracted target security_error = ⊥
  IsExtracted target crashed = Failure
