-- ===== src/Tests/Changes.antt =====
-- A change of the second line of a file, its findings and its symbols.
use analysis_engine_service.Prelude.{
  true, false, ℕ, ◌≡◌, ◌≢◌, eq_iff, refl, ◌↔◌, String, Bool, true, ◌==◌, none, some, List, [], ◌∷◌,
  map, filter, count, All, Elem, Pairwise, Pointwise,
}
use analysis_engine_service.Domain.Finding.{Finding}
use analysis_engine_service.Domain.ChangeSet.{
  ChangedFile, ChangedSymbol, available, PullRequestChanges,
}
use analysis_engine_service.Domain.CodeIndex.{
  contains_line, Symbol, RepoIndex, build, get_symbol, symbols_in_file, callers_of,
}
use analysis_engine_service.Domain.CodeIndex.Queries.{queries-eq-scans, get_symbol-build}
use analysis_engine_service.Domain.CodeIndex.Callers.{Calls, HasDistinctIds, callers_of_iff}
use analysis_engine_service.Indexing.Resolver.{resolve_edge_targets}
use analysis_engine_service.Indexing.Resolver.Laws.{IsResolved, resolve_edge_targets-IsResolved}
use analysis_engine_service.Diffing.ChangeMapper.{
  is_deleted, mark_findings, to_changed_symbol, changed_symbols,
}
use analysis_engine_service.Diffing.ChangeMapper.Marks.{
  HasDistinctPaths, is_marked, IsTagged, IsTouched, mark_findings_lem,
}
use analysis_engine_service.Diffing.ChangeMapper.Symbols.{IsInnermost}
use analysis_engine_service.Diffing.ChangeMapper.Edited.{
  IsChangedLine, IsEdited, changed_symbols_lem,
}
use analysis_engine_service.Application.Orchestrator.{
  ToolRun, found, crashed, completed, failed, build_result, IsCrashed, build_result-failed_iff,
}
use analysis_engine_service.Application.FindingNormalizer.{with_fingerprint, normalize}
use analysis_engine_service.Application.FindingNormalizer.Distinct.{first_of, normalize_lem}
use analysis_engine_service.Tests.Samples.{digest, linter_finding, change_set, symbols, edge, edges}

abbrev findings : List Finding
findings =
    linter_finding "a" (some 1) ∷ linter_finding "b" (some 2) ∷ linter_finding "c" (some 2) ∷ []

paths_differ : HasDistinctPaths change_set.files
paths_differ = ((λ e. absurd (cc ((eq_iff "a.py" "b.py").1 e)), tt), (tt, tt))

mark_findings_lem_example :
    Pointwise
      (λ f g. (b : Bool) × IsTagged b f g × ((b ≡ true) ↔ IsTouched change_set f))
      findings
      (mark_findings findings change_set).0
    × ((mark_findings findings change_set).1
        ≡ count is_marked (mark_findings findings change_set).0)
mark_findings_lem_example = mark_findings_lem findings change_set paths_differ

two_marked : (mark_findings findings change_set).1 ≡ 2
unfolding mark_findings
two_marked = refl

abbrev index : RepoIndex
index = build symbols edges 1 0

abbrev elements : List ℕ → List ℕ
elements lines = lines

only_inner :
    map (λ (r : ChangedSymbol). r.name) (changed_symbols elements index change_set) ≡ "inner" ∷ []
unfolding changed_symbols build
only_inner = refl

changed_symbols_lem_example :
    ((r : ChangedSymbol)
      → Elem r (changed_symbols elements index change_set)
      → (s : Symbol) × (to_changed_symbol index s ≡ r) × IsEdited index change_set.files s)
    × ((f : ChangedFile) (line : ℕ) (t : Symbol)
        → Elem f change_set.files
        → is_deleted f ≡ false
        → IsChangedLine f line
        → Elem t (symbols_in_file index f.path)
        → contains_line t line ≡ true
        → (s : Symbol) × IsInnermost (symbols_in_file index f.path) line s
          × (r : ChangedSymbol) × Elem r (changed_symbols elements index change_set)
          × (r.symbol_id ≡ s.symbol_id))
changed_symbols_lem_example =
    changed_symbols_lem elements (λ lines n. ((λ m. m), (λ m. m))) index change_set

queries-eq-scans_example :
    symbols_in_file (build symbols edges 1 0) "a.py" ≡ filter (λ s. s.file_path == "a.py") symbols
queries-eq-scans_example = (queries-eq-scans symbols edges 1 0 "a.py").0

get_symbol-build_example :
    ((s : Symbol)
      → get_symbol (build symbols edges 1 0) "x" ≡ some s
      → Elem s symbols × (s.symbol_id ≡ "x"))
    × (get_symbol (build symbols edges 1 0) "x" ≡ none → All (λ s. s.symbol_id ≢ "x") symbols)
get_symbol-build_example = get_symbol-build symbols edges 1 0 "x"

callers_of_iff_example :
    ((c : Symbol)
      → Elem c (callers_of (build symbols edges 1 0) "inner") ↔ Calls symbols edges 1 0 "inner" c)
    × HasDistinctIds (callers_of (build symbols edges 1 0) "inner")
callers_of_iff_example = callers_of_iff symbols edges 1 0 "inner"

resolve_edge_targets-IsResolved_example :
    Pointwise (IsResolved symbols) (edge none ∷ []) (resolve_edge_targets symbols (edge none ∷ []))
resolve_edge_targets-IsResolved_example = resolve_edge_targets-IsResolved symbols (edge none ∷ [])

normalize_lem_example :
    Pairwise (λ (f g : Finding). f.fingerprint ≢ g.fingerprint) (normalize digest findings)
    × ((k : String)
        → first_of k (normalize digest findings)
          ≡ first_of k (map (with_fingerprint digest) findings))
normalize_lem_example = normalize_lem digest findings

abbrev changes : PullRequestChanges
changes = record {
  status = available;
  unavailable_reason = none;
  change_set = some change_set;
  changed_symbols = [];
  files_changed = 1;
  lines_added = 1;
  lines_removed = 0;
  findings_on_changed_lines = 0;
}

abbrev tool_runs : List (String × ToolRun)
tool_runs = ("pylint", found findings) ∷ ("radon", crashed "gone") ∷ []

build_result-failed_iff_example :
    (((build_result digest tool_runs changes).status ≡ failed)
      ↔ ((tool_runs ≢ []) × All IsCrashed tool_runs))
    × (((build_result digest tool_runs changes).error_message ≡ none)
        ↔ ((build_result digest tool_runs changes).status ≡ completed))
build_result-failed_iff_example = build_result-failed_iff digest tool_runs changes
