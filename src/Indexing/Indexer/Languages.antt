-- ===== src/Indexing/Indexer/Languages.antt =====
-- indexing/languages.py: the node types of each language. The grammars are left out.
use analysis_engine_service.Prelude.{String, Option, [], ◌∷◌, Dict, get}
use analysis_engine_service.Prelude.Text.{Unicode}
use analysis_engine_service.Domain.CodeIndex.{SymbolKind, class, function, method}
use analysis_engine_service.Indexing.Indexer.{LanguageSpec, is_function_valued_declarator}

abbrev pub python : LanguageSpec
python = record {
  name = "python";
  definitions = ("function_definition", function) ∷ ("class_definition", class) ∷ [];
  call_nodes = "call" ∷ [];
  import_nodes = "import_statement" ∷ "import_from_statement" ∷ [];
  predicates = [];
}

abbrev pub js_ts_definitions : Dict SymbolKind
js_ts_definitions =
    ("function_declaration", function)
    ∷ ("generator_function_declaration", function)
    ∷ ("class_declaration", class)
    ∷ ("method_definition", method)
    ∷ ("variable_declarator", function)
    ∷ []

-- JavaScript and TypeScript differ in their names and their grammars.
unfoldable pub js_ts : String → LanguageSpec
js_ts name = record {
  name = name;
  definitions = js_ts_definitions;
  call_nodes = "call_expression" ∷ [];
  import_nodes = "import_statement" ∷ [];
  predicates = ("variable_declarator", is_function_valued_declarator) ∷ [];
}

-- `_BY_EXTENSION`
abbrev pub by_extension : Dict LanguageSpec
by_extension =
    (".py", python)
    ∷ (".js", js_ts "javascript")
    ∷ (".jsx", js_ts "javascript")
    ∷ (".mjs", js_ts "javascript")
    ∷ (".cjs", js_ts "javascript")
    ∷ (".ts", js_ts "typescript")
    ∷ (".tsx", js_ts "typescript")
    ∷ []

unfoldable pub spec_for_extension : Unicode → String → Option LanguageSpec
spec_for_extension U extension = get (U.lower extension) by_extension
