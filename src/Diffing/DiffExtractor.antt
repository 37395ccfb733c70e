-- ===== src/Diffing/DiffExtractor.antt =====
-- diffing/diff_extractor.py: the changes of a pull request. The git commands of a job are numbered;
-- `git n args` is the process of command `n`.
pub mod Laws
pub mod Sound
use Prim.Native.String.{compare, ◌++◌ as str_append}
use text.Mathlib.Text.{is_lt}
use analysis_engine_service.Prelude.{
  ℕ, zero, suc, ◌+◌, String, Bool, true, false, not, Option, none, some, or_else, is_some, List, [],
  ◌∷◌, ◌++◌, map, filter, length, sum_of, if◌then◌else◌, ltb, leb, eqb, ◌==◌, ◌&&◌, Dict, get,
}
use analysis_engine_service.Prelude.Sorting.{sorted}
use analysis_engine_service.Prelude.Raises.{Raises, ok, value_error}
use analysis_engine_service.Prelude.Text.{Unicode, strip}
use analysis_engine_service.Prelude.Bytes.{Bytes}
use analysis_engine_service.Prelude.Bytes.Decimal.{show}
use analysis_engine_service.Workspace.GitClient.{
  Outcome, done, security_error, crashed, ◌>>=◌, GitProcess, run_git_output, validate_branch,
}
use analysis_engine_service.Domain.ChangeSet.{
  ChangeStatus, modified, renamed, ChangedFile, ChangeSet, ChangesUnavailableReason,
  no_target_branch, no_merge_base, too_large, error, PullRequestChanges, available, unavailable,
  lines_added, lines_removed,
}
use analysis_engine_service.Diffing.GeneratedFiles.{is_generated}
use analysis_engine_service.Diffing.DiffParser.Numstat.{
  NumstatEntry, is_binary, Numstat, parsed, parse_numstat,
}
use analysis_engine_service.Diffing.DiffParser.Patch.{PatchFile, parse_patch}

abbrev pub max_line_level_changes : ℕ
max_line_level_changes = 20000

-- `sorted(set(lines))`
abbrev pub insert_once : ℕ → List ℕ → List ℕ
insert_once n [] = n ∷ []
insert_once n (m ∷ ms) =
    let rest = insert_once n ms in
    if ltb n m then n ∷ m ∷ ms else if eqb n m then m ∷ ms else m ∷ rest

unfoldable pub sorted_set : List ℕ → List ℕ
sorted_set [] = []
sorted_set (n ∷ ns) = insert_once n (sorted_set ns)

-- `_to_changed_file`; `"renamed" if entry.old_path` takes an empty old path for none.
abbrev pub has_old : Option String → Bool
has_old none = false
has_old (some path) = not (path == "")

unfoldable pub to_changed_file : NumstatEntry → Option PatchFile → ChangedFile
unfolding sorted_set
to_changed_file entry patch = record {
  path = entry.path;
  old_path = entry.old_path;
  status = elim patch [
    | some p ↦ p.status
    | none ↦ if has_old entry.old_path then renamed else modified
  ];
  is_binary = is_binary entry;
  lines_added = or_else entry.lines_added 0;
  lines_removed = or_else entry.lines_removed 0;
  added_lines = elim patch [ some p ↦ sorted_set p.added_lines | none ↦ [] ];
  deletion_points = elim patch [ some p ↦ sorted_set p.deletion_points | none ↦ [] ];
}

-- `_unavailable`
abbrev pub unavailable_changes : ChangesUnavailableReason → PullRequestChanges
unavailable_changes reason = record {
  status = unavailable;
  unavailable_reason = some reason;
  change_set = none;
  changed_symbols = [];
  files_changed = 0;
  lines_added = 0;
  lines_removed = 0;
  findings_on_changed_lines = 0;
}

abbrev pub is_included : NumstatEntry → Bool
is_included entry = not (is_generated entry.path)

unfoldable pub excluded_paths : List NumstatEntry → List String
excluded_paths entries =
    sorted (λ a b. is_lt (compare a b))
      (map (λ (e : NumstatEntry). e.path) (filter (λ e. is_generated e.path) entries))

unfoldable pub changed_lines : List NumstatEntry → ℕ
changed_lines entries =
    sum_of (λ (e : NumstatEntry). or_else e.lines_added 0 + or_else e.lines_removed 0) entries

abbrev pub is_line_level : List NumstatEntry → Bool
is_line_level included = leb (changed_lines included) max_line_level_changes

abbrev pub is_empty : List NumstatEntry → Bool
is_empty [] = true
is_empty (e ∷ es) = false

-- The end of `_diff`: the result from the entries and the patch.
unfoldable pub changes_of :
    String → String → String → List NumstatEntry → Dict PatchFile → PullRequestChanges
unfolding to_changed_file changed_lines excluded_paths lines_added lines_removed
changes_of target base head entries patch =
    let included = filter is_included entries in
    let files = map (λ (e : NumstatEntry). to_changed_file e (get e.path patch)) included in
    let change_set : ChangeSet = record {
      base_sha = base;
      head_sha = head;
      target_branch = target;
      files = files;
      excluded_files = excluded_paths entries;
    } in
    record {
      status = if is_line_level included then available else unavailable;
      unavailable_reason = if is_line_level included then none else some too_large;
      change_set = some change_set;
      changed_symbols = [];
      files_changed = length files;
      lines_added = lines_added change_set;
      lines_removed = lines_removed change_set;
      findings_on_changed_lines = 0;
    }

abbrev pub diff_flags : List String
diff_flags = "--no-color" ∷ "--no-ext-diff" ∷ "--no-textconv" ∷ "-M" ∷ []

abbrev pub numstat_args : String → String → List String
numstat_args base head =
    ("-c" ∷ "core.quotePath=false" ∷ "diff" ∷ "--numstat" ∷ "-z" ∷ diff_flags) ++ base ∷ head ∷ []

abbrev pub patch_args : String → String → List String → List String
patch_args base head excluded =
    ("-c" ∷ "core.quotePath=false" ∷ "diff" ∷ "--unified=0" ∷ diff_flags)
    ++ (base ∷ head ∷ "--" ∷ "." ∷ map (str_append ":(exclude,literal)") excluded)

module _ (U : Unicode) (decode : Bytes → String) (git : ℕ → List String → GitProcess) where
  -- `_git_bytes`
  unfoldable pub git_bytes : ℕ → List String → Outcome Bytes
  unfolding run_git_output
  git_bytes n args = run_git_output (0 ∷ []) (git n args) >>= λ r. done r.1

  unfoldable pub read_patch : ℕ → String → String → List NumstatEntry → Outcome (Dict PatchFile)
  unfolding git_bytes
  read_patch n base head entries =
      let included = filter is_included entries in
      if is_line_level included && not (is_empty included)
      then git_bytes n (patch_args base head (excluded_paths entries)) >>= (λ output.
        elim (parse_patch decode output) [ ok patch ↦ done patch | value_error ↦ crashed ])
      else done []

  -- `_diff`, from command `n` on
  unfoldable pub diff : ℕ → String → String → String → Outcome PullRequestChanges
  unfolding git_bytes read_patch changes_of
  diff n target base head = git_bytes n (numstat_args base head) >>= λ output.
      elim (parse_numstat decode output) [
        | parsed entries ↦ read_patch (n + 1) base head entries >>= λ patch.
            done (changes_of target base head entries patch)
        | _ ↦ crashed
      ]

  abbrev pub fetch_args : String → String → List String
  fetch_args depth refspec = "fetch" ∷ "--depth" ∷ depth ∷ "origin" ∷ "--" ∷ refspec ∷ []

  -- The head side is fetched too from the second attempt on.
  unfoldable pub deepen : Bool → ℕ → String → String → Outcome ℕ
  unfolding git_bytes
  deepen first n depth branch =
      if first then done n else git_bytes n (fetch_args depth branch) >>= (λ _. done (n + 1))

  -- `_find_merge_base` for the depths left: the base if there is one, and the next command
  unfoldable pub find_merge_base :
      Bool → ℕ → String → String → List String → Outcome (Option String × ℕ)
  unfolding deepen git_bytes run_git_output
  find_merge_base first n target branch [] = done (none, n)
  find_merge_base first n target branch (depth ∷ depths) =
      let ref = str_append "refs/remotes/origin/" target in
      let refspec = str_append "+refs/heads/" (str_append target (str_append ":" ref)) in
      git_bytes n (fetch_args depth refspec) >>= λ _. deepen first (n + 1) depth branch >>= λ m.
      run_git_output (0 ∷ 1 ∷ []) (git m ("merge-base" ∷ "HEAD" ∷ ref ∷ [])) >>= λ r.
      (let later = find_merge_base false (m + 1) target branch depths in
        if eqb r.0 0 then done (some (strip U (decode r.1)), m + 1) else later)

  -- The `try` block of `extract`.
  unfoldable pub extract_try : String → String → List String → Outcome PullRequestChanges
  unfolding validate_branch find_merge_base git_bytes diff
  extract_try target branch depths =
      if validate_branch target
      then find_merge_base true 0 target branch depths >>= (λ found. elim found.0 [
        | none ↦ done (unavailable_changes no_merge_base)
        | some base ↦ git_bytes found.1 ("rev-parse" ∷ "HEAD" ∷ []) >>= λ output.
            diff (found.1 + 1) target base (strip U (decode output))
      ])
      else security_error

  abbrev pub caught : Outcome PullRequestChanges → Outcome PullRequestChanges
  caught (done changes) = done changes
  caught security_error = done (unavailable_changes error)
  caught crashed = crashed

  -- `extract`
  unfoldable pub extract : Option String → String → List String → Outcome PullRequestChanges
  unfolding extract_try
  extract none branch depths = done (unavailable_changes no_target_branch)
  extract (some target) branch depths =
      if target == ""
      then done (unavailable_changes no_target_branch)
      else caught (extract_try target branch depths)
