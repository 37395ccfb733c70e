-- ===== src/Indexing/Indexer.antt =====
-- indexing/indexer.py: the walk over the syntax tree of one file, as tree-sitter gives it, with the
pub mod Languages
-- language's node types (indexing/languages.py) as data.
pub mod Owned
use Prim.Native.Char.{Char}
use Prim.Native.String.{◌++◌ as str_append}
use analysis_engine_service.Prelude.{
  ℕ, ◌+◌, String, Bool, true, false, not, ◌||◌, ◌&&◌, Option, none, some, List, [], ◌∷◌, ◌++◌, map,
  any, if◌then◌else◌, ◌==◌, Dict, get,
}
use analysis_engine_service.Prelude.Text.{is_char, join, strip_by}
use analysis_engine_service.Diffing.GeneratedFiles.{is_one_of}
use analysis_engine_service.Indexing.Resolver.{resolve_edge_targets}
use analysis_engine_service.Domain.CodeIndex.{
  RepoIndex, build, Symbol, SymbolKind, class, function, method, Edge, EdgeKind, calls, imports,
  contains,
}

-- A node without its children: the field of its parent that it stands in, its type, its text,
-- decoded, and the rows of its first and its last point.
pub record Node : Type 0 where
  pub field : Option String
  pub type : String
  pub text : String
  pub start_row : ℕ
  pub end_row : ℕ

-- The nodes of a list: each with its children, and then the nodes behind it.
pub data Nodes : Type 0 where
  leaf : Nodes
  tree : Node → Nodes → Nodes → Nodes

pub record LanguageSpec : Type 0 where
  pub name : String
  pub definitions : Dict SymbolKind
  pub call_nodes : List String
  pub import_nodes : List String
  pub predicates : Dict (Node → Nodes → Bool)

-- `child_by_field_name`, of a node's children
unfoldable pub child_by_field_name : String → Nodes → Option (Node × Nodes)
child_by_field_name name leaf = none
child_by_field_name name (tree n children rest) = elim n.field [
  | none ↦ child_by_field_name name rest
  | some f ↦ if f == name then some (n, children) else child_by_field_name name rest
]

-- `_is_function_valued_declarator`
unfoldable pub is_function_valued_declarator : Node → Nodes → Bool
unfolding child_by_field_name
is_function_valued_declarator n children = elim (child_by_field_name "value" children) [
  | none ↦ false
  | some (v, _) ↦ is_one_of ("arrow_function" ∷ "function_expression" ∷ []) v.type
]

-- `scope[-1]`, if there is one
abbrev pub last_of : List Symbol → Option Symbol
last_of [] = none
last_of (s ∷ ss) = elim (last_of ss) [ none ↦ some s | some t ↦ some t ]

-- `s.strip("\"'")`
abbrev pub is_quote_mark : Char → Bool
is_quote_mark c = is_char b'"' c || is_char 39 c

-- `if kind == "function" and scope and scope[-1].kind == "class": kind = "method"`
abbrev pub kind_in : List Symbol → SymbolKind → SymbolKind
kind_in scope class = class
kind_in scope method = method
kind_in scope function = elim (last_of scope) [
  | none ↦ function
  | some s ↦ elim s.kind [ class ↦ method | _ ↦ function ]
]

module _ (file_path : String) (spec : LanguageSpec) where
  -- The symbol of a definition with a name.
  abbrev pub symbol_of : Node → SymbolKind → List Symbol → String → Symbol
  symbol_of n kind scope name =
      let qualified = join "." (map (λ (s : Symbol). s.name) scope ++ name ∷ []) in
      record {
        symbol_id = str_append file_path (str_append "::" qualified);
        name = name;
        qualified_name = qualified;
        kind = kind_in scope kind;
        file_path = file_path;
        start_line = n.start_row + 1;
        end_line = n.end_row + 1;
        language = spec.name;
      }

  -- `predicate is not None and not predicate(node)`
  abbrev pub is_refused : Node → Nodes → Bool
  is_refused n children = elim (get n.type spec.predicates) [
    | none ↦ false
    | some p ↦ not (p n children)
  ]

  -- `_symbol_for`
  unfoldable pub symbol_for : Node → Nodes → List Symbol → Option Symbol
  unfolding child_by_field_name
  symbol_for n children scope = elim (get n.type spec.definitions) [
    | none ↦ none
    | some kind ↦
        if is_refused n children then none else elim (child_by_field_name "name" children) [
          | none ↦ none
          | some (named, _) ↦ some (symbol_of n kind scope named.text)
        ]
  ]

  -- `_callee_name`
  unfoldable pub callee_name : Nodes → Option String
  unfolding child_by_field_name
  callee_name children = elim (child_by_field_name "function" children) [
    | none ↦ none
    | some (f, parts) ↦ elim (child_by_field_name "attribute" parts) [
      | some (a, _) ↦ some a.text
      | none ↦ elim (child_by_field_name "property" parts) [
        | some (p, _) ↦ some p.text
        | none ↦ if f.type == "identifier" then some f.text else none
      ]
    ]
  ]

  -- The first bare name or text among the children
  unfoldable pub bare_name : Nodes → Option String
  bare_name leaf = none
  bare_name (tree n children rest) =
      let later = bare_name rest in
      if is_one_of ("dotted_name" ∷ "string" ∷ []) n.type
      then some (strip_by is_quote_mark n.text)
      else later

  -- `_import_name`, for the fields left to try
  unfoldable pub import_name : List String → Nodes → Option String
  unfolding child_by_field_name bare_name
  import_name [] children = bare_name children
  import_name (f ∷ fields) children = elim (child_by_field_name f children) [
    | some (target, _) ↦ some (strip_by is_quote_mark target.text)
    | none ↦ import_name fields children
  ]

  abbrev pub import_name_fields : List String
  import_name_fields = "module_name" ∷ "source" ∷ "name" ∷ []

  abbrev pub edge_of : EdgeKind → String → String → Option String → ℕ → Edge
  edge_of kind source name target line = record {
    kind = kind;
    source_symbol_id = source;
    target_name = name;
    target_symbol_id = target;
    file_path = file_path;
    line = line;
  }

  -- The edge to a nested definition
  unfoldable pub contains_edges : List Symbol → Symbol → List Edge
  contains_edges scope s = elim (last_of scope) [
    | none ↦ []
    | some owner ↦ edge_of contains owner.symbol_id s.name (some s.symbol_id) s.start_line ∷ []
  ]

  -- `if callee:` leaves out the empty text too
  abbrev pub edges_named : (String → Edge) → Option String → List Edge
  edges_named f none = []
  edges_named f (some name) = if name == "" then [] else f name ∷ []

  unfoldable pub import_edges : Node → Nodes → List Edge
  unfolding import_name
  import_edges n children =
      if is_one_of spec.import_nodes n.type
      then edges_named (λ name. edge_of imports file_path name none (n.start_row + 1))
          (import_name import_name_fields children)
      else []

  -- The edge of a node that defines nothing: a call in a definition, or else an import
  unfoldable pub other_edges : Node → Nodes → List Symbol → List Edge
  unfolding callee_name import_edges
  other_edges n children scope = elim (last_of scope) [
    | none ↦ import_edges n children
    | some owner ↦
        if is_one_of spec.call_nodes n.type
        then edges_named (λ name. edge_of calls owner.symbol_id name none (n.start_row + 1))
            (callee_name children)
        else import_edges n children
  ]

  -- `visit`, for each node of a list: the symbols and edges in the order in which they are appended
  unfoldable pub visit : List Symbol → Nodes → List Symbol × List Edge
  unfolding symbol_for contains_edges other_edges
  visit scope leaf = ([], [])
  visit scope (tree n children rest) =
      let (later_symbols, later_edges) = visit scope rest in
      elim (symbol_for n children scope) [
        | some s ↦
            let (symbols, edges) = visit (scope ++ s ∷ []) children in
            ((s ∷ symbols) ++ later_symbols, (contains_edges scope s ++ edges) ++ later_edges)
        | none ↦
            let (symbols, edges) = visit scope children in
            (symbols ++ later_symbols, (other_edges n children scope ++ edges) ++ later_edges)
      ]

  -- `_index_file`, of the root node
  unfoldable pub index_file : Node → Nodes → List Symbol × List Edge
  unfolding visit
  index_file root children = visit [] (tree root children leaf)

-- What becomes of a file of a known language that is not ignored: it cannot be read, it is too large,
-- its parsing fails, or it has a tree.
pub data SourceFile : Type 0 where
  unreadable too_large unparsed : SourceFile
  parsed : String → LanguageSpec → Node → Nodes → SourceFile

pub record Collected : Type 0 where
  pub symbols : List Symbol
  pub edges : List Edge
  pub files_indexed : ℕ
  pub files_failed : ℕ

-- The loop of `build` over the files, in the order of their paths
unfoldable pub collect : Collected → List SourceFile → Collected
unfolding index_file
collect c [] = c
collect c (unreadable ∷ files) = collect (record c { files_failed = c.files_failed + 1 }) files
collect c (too_large ∷ files) = collect c files
collect c (unparsed ∷ files) = collect (record c { files_failed = c.files_failed + 1 }) files
collect c (parsed path spec root children ∷ files) =
    let (symbols, edges) = index_file path spec root children in
    collect
      (record {
        symbols = c.symbols ++ symbols;
        edges = c.edges ++ edges;
        files_indexed = c.files_indexed + 1;
        files_failed = c.files_failed;
      })
      files

-- `build`
unfoldable pub build_index : List SourceFile → RepoIndex
unfolding collect
build_index files =
    let c =
      collect (record { symbols = []; edges = []; files_indexed = 0; files_failed = 0 }) files in
    build c.symbols (resolve_edge_targets c.symbols c.edges) c.files_indexed c.files_failed
