-- ===== src/Domain/CodeIndex.antt =====
-- domain/code_index.py: the repository index, its lookup tables and its queries.
pub mod Queries
pub mod Callers
use analysis_engine_service.Prelude.{
  ℕ, ◌+◌, String, Bool, true, false, ◌&&◌, Option, none, some, List, [], ◌∷◌, ◌==◌, if◌then◌else◌,
  ltb, leb, any, filter, Dict, get, put, values, push, bucket, push_all,
}
use analysis_engine_service.Prelude.Sorting.{sorted}

pub data SymbolKind : Type 0 where
  class function method : SymbolKind

pub data EdgeKind : Type 0 where
  calls imports contains : EdgeKind

pub record Symbol : Type 0 where
  pub symbol_id : String
  pub name : String
  pub qualified_name : String
  pub kind : SymbolKind
  pub file_path : String
  pub start_line : ℕ
  pub end_line : ℕ
  pub language : String

unfoldable pub contains_line : Symbol → ℕ → Bool
contains_line s line = leb s.start_line line && leb line s.end_line

pub record Edge : Type 0 where
  pub kind : EdgeKind
  pub source_symbol_id : String
  pub target_name : String
  pub target_symbol_id : Option String
  pub file_path : String
  pub line : ℕ

abbrev pub is_calls : Edge → Bool
is_calls e = elim e.kind [ calls ↦ true | _ ↦ false ]

abbrev pub is_imports : Edge → Bool
is_imports e = elim e.kind [ imports ↦ true | _ ↦ false ]

-- `RepoIndex` with its derived tables
pub record RepoIndex : Type 0 where
  pub symbols : List Symbol
  pub edges : List Edge
  pub files_indexed : ℕ
  pub files_failed : ℕ
  pub by_id : Dict Symbol
  pub by_name : Dict (List Symbol)
  pub by_file : Dict (List Symbol)
  pub outgoing : Dict (List Edge)
  pub incoming : Dict (List Edge)
  pub calls_by_target_name : Dict (List Edge)

-- `self._by_id[symbol.symbol_id] = symbol`, for each symbol
unfoldable pub put_ids : Dict Symbol → List Symbol → Dict Symbol
put_ids d [] = d
put_ids d (s ∷ ss) = put_ids (put s.symbol_id s d) ss

-- `if edge.target_symbol_id:` is false at `None` and at the empty text
unfoldable pub push_incoming : Dict (List Edge) → List Edge → Dict (List Edge)
push_incoming d [] = d
push_incoming d (e ∷ es) =
    push_incoming
      (elim e.target_symbol_id [ none ↦ d | some t ↦ if t == "" then d else push t e d ]) es

-- `model_post_init`, from the four fields that are given
unfoldable pub build : List Symbol → List Edge → ℕ → ℕ → RepoIndex
build symbols edges indexed failed = record {
  symbols = symbols;
  edges = edges;
  files_indexed = indexed;
  files_failed = failed;
  by_id = put_ids [] symbols;
  by_name = push_all (λ s. s.name) [] symbols;
  by_file = push_all (λ s. s.file_path) [] symbols;
  outgoing = push_all (λ e. e.source_symbol_id) [] edges;
  incoming = push_incoming [] edges;
  calls_by_target_name = push_all (λ e. e.target_name) [] (filter is_calls edges);
}

-- `RepoIndex.get`
unfoldable pub get_symbol : RepoIndex → String → Option Symbol
get_symbol index symbol_id = get symbol_id index.by_id

unfoldable pub find_by_name : RepoIndex → String → List Symbol
find_by_name index name = bucket name index.by_name

unfoldable pub symbols_in_file : RepoIndex → String → List Symbol
symbols_in_file index path = bucket path index.by_file

-- The sort key `s.end_line - s.start_line`, compared without subtraction.
abbrev pub is_tighter : Symbol → Symbol → Bool
is_tighter a b = ltb (a.end_line + b.start_line) (b.end_line + a.start_line)

unfoldable pub symbols_touching_lines : RepoIndex → String → List ℕ → List Symbol
unfolding contains_line
symbols_touching_lines index path lines =
    sorted is_tighter (filter (λ s. any (contains_line s) lines) (bucket path index.by_file))

unfoldable pub callees_of : RepoIndex → String → List Edge
callees_of index symbol_id = filter is_calls (bucket symbol_id index.outgoing)

-- `[self._by_id[name(e)] for e in edges if name(e) in self._by_id]`
unfoldable pub resolve_all : (Edge → Option String) → Dict Symbol → List Edge → List Symbol
resolve_all end d [] = []
resolve_all end d (e ∷ es) =
    let rest = resolve_all end d es in
    elim (end e) [ none ↦ rest | some k ↦ elim (get k d) [ none ↦ rest | some s ↦ s ∷ rest ] ]

-- `list({c.symbol_id: c for c in symbols}.values())`
unfoldable pub distinct : List Symbol → List Symbol
unfolding put_ids
distinct symbols = values (put_ids [] symbols)

unfoldable pub callers_of : RepoIndex → String → List Symbol
unfolding distinct resolve_all
callers_of index symbol_id = distinct (
    resolve_all (λ e. some e.source_symbol_id) index.by_id
      (filter is_calls (bucket symbol_id index.incoming)))

unfoldable pub call_sites_of : RepoIndex → String → List Edge
call_sites_of index symbol_id = filter is_calls (bucket symbol_id index.incoming)

unfoldable pub calls_by_name : RepoIndex → String → List Edge
calls_by_name index name = bucket name index.calls_by_target_name

unfoldable pub imports_of_file : RepoIndex → String → List Edge
imports_of_file index path = filter (λ e. is_imports e && e.file_path == path) index.edges

-- `neighborhood`: the callers and the callees. `e.target_symbol_id and …` is false at the empty text.
unfoldable pub neighborhood : RepoIndex → String → List Symbol × List Symbol
unfolding callers_of callees_of distinct resolve_all
neighborhood index symbol_id = (
  callers_of index symbol_id,
  distinct (
      resolve_all
        (λ e. elim e.target_symbol_id [ none ↦ none | some t ↦ if t == "" then none else some t ])
        index.by_id (callees_of index symbol_id)),
)
