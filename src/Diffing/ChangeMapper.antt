-- ===== src/Diffing/ChangeMapper.antt =====
-- diffing/change_mapper.py: which findings and symbols a pull request touches.
pub mod Marks
pub mod Symbols
pub mod Edited
use analysis_engine_service.Prelude.{
  ℕ, zero, suc, ◌+◌, ◌-◌, String, Bool, true, false, not, ◌||◌, ◌&&◌, Option, none, some, List, [],
  ◌∷◌, ◌++◌, ◌==◌, if◌then◌else◌, ltb, leb, eqb, any, filter, length, map, Dict, get, put, values,
}
use Prim.Native.String.{compare}
use text.Mathlib.Text.{is_lt}
use analysis_engine_service.Prelude.Sorting.{sorted}
use analysis_engine_service.Domain.Finding.{Finding, MetaValue, flag}
use analysis_engine_service.Domain.ChangeSet.{
  ChangedFile, ChangeSet, ChangedSymbol, ChangeStatus, deleted,
}
use analysis_engine_service.Domain.CodeIndex.{
  Symbol, SymbolKind, class, function, method, RepoIndex, contains_line, is_tighter,
  symbols_in_file, callers_of,
}

abbrev pub on_changed_line : String
on_changed_line = "on_changed_line"

abbrev pub is_deleted : ChangedFile → Bool
is_deleted f = elim f.status [ deleted ↦ true | _ ↦ false ]

-- `line in added`, for a set of lines
abbrev pub has_line : List ℕ → ℕ → Bool
has_line lines n = any (eqb n) lines

-- `range(start, start + n)`
abbrev pub range_from : ℕ → ℕ → List ℕ
range_from start zero = []
range_from start (suc n) = start ∷ range_from (start + 1) n

-- `{f.path: (f, set(f.added_lines)) for f in files if f.status != "deleted"}`: a later file with
-- the same path replaces an earlier one
unfoldable pub changed_by_path : Dict ChangedFile → List ChangedFile → Dict ChangedFile
changed_by_path d [] = d
changed_by_path d (f ∷ fs) = changed_by_path (if is_deleted f then d else put f.path f d) fs

abbrev pub is_empty {ℓ} : {A : Type ℓ} → List A → Bool
is_empty [] = true
is_empty (x ∷ xs) = false

-- The last line of a finding that starts at `line`: `end_line` counts if it is set, not 0 and not
-- before `line`.
unfoldable pub last_line : ℕ → Option ℕ → ℕ
last_line line none = line
last_line line (some end) = if eqb end 0 then line else if leb line end then end else line

-- `_is_on_changed_line`, once the file's entry is found
unfoldable pub touches : Finding → ChangedFile → Bool
unfolding last_line
touches finding f = elim finding.line [
  | none ↦ not (is_empty f.added_lines) || not (is_empty f.deletion_points)
  | some line ↦
      any (has_line f.added_lines) (range_from line (last_line line finding.end_line + 1 - line))
]

unfoldable pub is_on_changed_line : Finding → Dict ChangedFile → Bool
unfolding touches
is_on_changed_line finding changed = elim (get finding.file_path changed) [
  | none ↦ false
  | some f ↦ touches finding f
]

-- `model_copy(update={"metadata": {**finding.metadata, ON_CHANGED_LINE: on_changed}})`
unfoldable pub mark : Bool → Finding → Finding
mark on finding = record finding { metadata = put on_changed_line (flag on) finding.metadata }

mark_loop : Dict ChangedFile → List Finding → ℕ → List Finding → List Finding × ℕ
unfolding is_on_changed_line mark
mark_loop changed marked n [] = (marked, n)
mark_loop changed marked n (f ∷ fs) =
    let on = is_on_changed_line f changed in
    mark_loop changed (marked ++ mark on f ∷ []) (n + (if on then 1 else 0)) fs

unfoldable pub mark_findings : List Finding → ChangeSet → List Finding × ℕ
unfolding mark_loop changed_by_path
mark_findings findings change_set = mark_loop (changed_by_path [] change_set.files) [] 0 findings

-- `min(containing, key=…)` takes the first of the least
unfoldable pub innermost : Symbol → List Symbol → Symbol
innermost best [] = best
innermost best (s ∷ ss) = innermost (if is_tighter s best then s else best) ss

-- One changed line: `found[innermost.symbol_id] = innermost`
unfoldable pub find_at : List Symbol → ℕ → Dict Symbol → Dict Symbol
unfolding innermost contains_line
find_at symbols line found = elim (filter (λ s. contains_line s line) symbols) [
  | [] ↦ found
  | s ∷ ss ↦ let best = innermost s ss in put best.symbol_id best found
]

unfoldable pub find_lines : List Symbol → Dict Symbol → List ℕ → Dict Symbol
unfolding find_at
find_lines symbols found [] = found
find_lines symbols found (line ∷ lines) = find_lines symbols (find_at symbols line found) lines

-- The sort key `(s.file_path, s.start_line)`.
abbrev pub is_before : Symbol → Symbol → Bool
is_before a b =
    is_lt (compare a.file_path b.file_path)
    || (a.file_path == b.file_path && ltb a.start_line b.start_line)

unfoldable pub kind_name : SymbolKind → String
kind_name class = "class"
kind_name function = "function"
kind_name method = "method"

unfoldable pub to_changed_symbol : RepoIndex → Symbol → ChangedSymbol
unfolding kind_name callers_of
to_changed_symbol index s = record {
  symbol_id = s.symbol_id;
  name = s.name;
  qualified_name = s.qualified_name;
  kind = kind_name s.kind;
  file_path = s.file_path;
  start_line = s.start_line;
  end_line = s.end_line;
  callers_count = length (callers_of index s.symbol_id);
}

-- `elements lines` lists the set of `lines`; the order in which a set is run through is not fixed.
module _ (elements : List ℕ → List ℕ) where
  unfoldable pub find_files : RepoIndex → Dict Symbol → List ChangedFile → Dict Symbol
  unfolding find_lines symbols_in_file
  find_files index found [] = found
  find_files index found (f ∷ fs) =
      find_files index
        (if is_deleted f
          then found
          else find_lines (symbols_in_file index f.path) found
              (elements (f.added_lines ++ f.deletion_points)))
        fs

  unfoldable pub changed_symbols : RepoIndex → ChangeSet → List ChangedSymbol
  unfolding find_files to_changed_symbol
  changed_symbols index change_set =
      map (to_changed_symbol index)
        (sorted is_before (values (find_files index [] change_set.files)))
