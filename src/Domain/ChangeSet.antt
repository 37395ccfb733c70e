-- ===== src/Domain/ChangeSet.antt =====
-- domain/change_set.py: what a pull request changes.
use analysis_engine_service.Prelude.{ℕ, String, Bool, Option, List, sum_of, find?, ◌==◌}

pub data ChangeStatus : Type 0 where
  added modified deleted renamed : ChangeStatus

pub data ChangesUnavailableReason : Type 0 where
  no_target_branch no_merge_base too_large error : ChangesUnavailableReason

pub record ChangedFile : Type 0 where
  pub path : String
  pub old_path : Option String
  pub status : ChangeStatus
  pub is_binary : Bool
  pub lines_added : ℕ
  pub lines_removed : ℕ
  pub added_lines : List ℕ
  pub deletion_points : List ℕ

pub record ChangeSet : Type 0 where
  pub base_sha : String
  pub head_sha : String
  pub target_branch : String
  pub files : List ChangedFile
  pub excluded_files : List String

-- The properties `ChangeSet.lines_added` and `ChangeSet.lines_removed`.
unfoldable pub lines_added : ChangeSet → ℕ
lines_added c = sum_of (λ f. f.lines_added) c.files

unfoldable pub lines_removed : ChangeSet → ℕ
lines_removed c = sum_of (λ f. f.lines_removed) c.files

-- `ChangeSet.file`
unfoldable pub file : ChangeSet → String → Option ChangedFile
file c path = find? (λ f. f.path == path) c.files

pub record ChangedSymbol : Type 0 where
  pub symbol_id : String
  pub name : String
  pub qualified_name : String
  pub kind : String
  pub file_path : String
  pub start_line : ℕ
  pub end_line : ℕ
  pub callers_count : ℕ

pub data Availability : Type 0 where
  available unavailable : Availability

pub record PullRequestChanges : Type 0 where
  pub status : Availability
  pub unavailable_reason : Option ChangesUnavailableReason
  pub change_set : Option ChangeSet
  pub changed_symbols : List ChangedSymbol
  pub files_changed : ℕ
  pub lines_added : ℕ
  pub lines_removed : ℕ
  pub findings_on_changed_lines : ℕ
